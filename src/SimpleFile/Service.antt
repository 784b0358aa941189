-- ===== src/SimpleFile/Service.antt =====
-- The simple file storage (internal/services/simplefile/simplefileblobstorage.go) as a blob storage of
-- the interface in internal/services/interfaces/blobstoredao.go.
use go_blob_store.Model.{ok}
use go_blob_store.Interfaces.{Services}
use go_blob_store.SimpleFile
use go_blob_store.SimpleFile.{BlobStorage, Codec, Walk}
use go_blob_store.SimpleFile.Files.{Disk}
use go_blob_store.SimpleFile.Retentions

module _ (codec : Codec) (disk : Disk) where
  -- the storage's operations, beside services of other kinds
  abbrev pub simple_file : Walk → Services → Services
  simple_file walk others = record {
    Store = BlobStorage;
    get_blobs = λ s f. (SimpleFile.get_blobs_v2 codec disk walk s f, s);
    store_blob = SimpleFile.store_blob_v2 codec disk;
    has_blob = λ s id. (SimpleFile.has_blob codec disk s id, s);
    get_blob_description = λ s id. (SimpleFile.get_blob_description codec disk s id, s);
    update_blob_description = SimpleFile.update_blob_description codec disk;
    retrieve_blob = λ s id. (SimpleFile.retrieve_blob codec disk s id, s);
    delete_blob = SimpleFile.delete_blob codec disk;
    check_blob = λ s id. (
      Retentions.check_blob codec (SimpleFile.has_blob codec disk s id)
          (SimpleFile.get_blob_description codec disk s id)
          (SimpleFile.retrieve_blob codec disk s id),
      s,
    );
    get_all_retentions = λ s f. (Retentions.get_all_retentions codec disk walk s f, s);
    add_retention = Retentions.add_retention codec disk;
    get_retention = λ s id. (Retentions.get_retention codec disk s id, s);
    delete_retention = Retentions.delete_retention codec disk;
    reset_retention = Retentions.reset_retention codec disk;
    close = λ s. (ok tt, s);
    Retentions = others.Retentions;
    manager_add_retention = others.manager_add_retention;
    manager_delete_retention = others.manager_delete_retention;
    Index = others.Index;
    index = others.index;
    search = others.search;
    Tenants = others.Tenants;
    add_size = others.add_size;
    sub_size = others.sub_size;
  }
