-- ===== src/SimpleFile/Listing.antt =====
-- What the listing of a simple file storage (internal/services/simplefile/simpleblobv2.go) gives of the
-- files that `filepath.Walk` visits.
use go_blob_store.Prelude.{
  String, Bool, true, List, [], ◌∷◌, ◌≡◌, refl, any, is_some, str_eq, ◌&&◌, ◌||◌, ◌∙◌, Bool-cases,
  inl, inr, arith,
}
use go_blob_store.Model.{ok}
use go_blob_store.SimpleFile
use go_blob_store.SimpleFile.{BlobStorage, Codec, Walk}
use go_blob_store.SimpleFile.Answers
use go_blob_store.SimpleFile.Cells
use go_blob_store.SimpleFile.Cells.{IsValid, sound_disk}
use go_blob_store.SimpleFile.Files.{FileInfo}

module _ (codec : Codec) where
  -- whether the walk takes a file for the description of this id
  abbrev pub takes : String → FileInfo → Bool
  takes id i =
      SimpleFile.is_description codec sound_disk i
      && str_eq (SimpleFile.id_of codec sound_disk i) id

  -- The walk visits the descriptions of version 2 under their names, and takes no other file for one:
  -- so it is if the path of the tenant's directory does not have the word `retention` in it.
  pub record IsWalk (walk : Walk) (s : BlobStorage) : Type 0 where
    pub visits : (id : String) → any (takes id) (walk.files s) ≡ is_some (s.json_v2 id)

  listed_lem :
      (is : List FileInfo) (id : String)
      → let listed = SimpleFile.listed_blobs codec sound_disk (λ _. true) is in
        (listed.0 ≡ ok tt) × (any (λ j. str_eq j id) listed.1 ≡ any (takes id) is)
  unfolding SimpleFile.listed_blobs
  listed_lem [] id = (refl, refl)
  listed_lem (i ∷ is) id =
      let (done, rest) = listed_lem is id in
      elim (Bool-cases (SimpleFile.is_description codec sound_disk i)) [
        | inl taken ↦ rw taken (done, rw rest refl)
        | inr passed ↦ rw passed (done, rest)
      ]

  -- The ids that are listed are those of the blobs, and those with a description alone.
  pub get_blobs_lem :
      (walk : Walk) (s : BlobStorage) (id : String)
      → IsWalk walk s
      → IsValid codec s
      → let listed = SimpleFile.get_blobs_v2 codec sound_disk walk s (λ _. true) in
        (listed.0 ≡ ok tt)
        × (any (λ j. str_eq j id) listed.1
            ≡ is_some (s.json_v2 id) || is_some (Cells.contents codec s id))
  unfolding SimpleFile.get_blobs_v2
  get_blobs_lem walk s id law valid =
      let (done, listed) = listed_lem (walk.files s) id in (done, listed ∙ law.visits id ∙ absorbed)
    where
      absorbed :
          is_some (s.json_v2 id) ≡ is_some (s.json_v2 id) || is_some (Cells.contents codec s id)
      absorbed = elim (Bool-cases (is_some (s.json_v2 id))) [
        | inl there ↦ rw there refl
        | inr gone ↦
            rw (gone, Answers.contents_of_bin codec s id valid)
              (grind (arith, (valid.entries id).has_json, gone))
      ]
