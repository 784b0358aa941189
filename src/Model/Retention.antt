-- ===== src/Model/Retention.antt =====
-- When a retention ends: pkg/model/retentionentry.go.
use go_blob_store.Prelude.{
  ℕ, pos, negsuc, ◌≡◌, ◌∙◌, ap, ltb, if◌then◌else◌, Bool-cases, inl, inr, ◌+◌, ◌*◌, ◌^◌, ◌<◌, arith,
  ◌+ℤ◌,
}
use go_blob_store.Model.{RetentionEntry, to_int64, scale, get_retention_timestamp_ms}

to_int64_pos : (a : ℕ) → a < 2 ^ 63 → to_int64 (pos a) ≡ pos a
unfolding to_int64
to_int64_pos a h = ground arith

pub to_int64_negsuc : (a : ℕ) → a < 2 ^ 63 → to_int64 (negsuc a) ≡ negsuc a
unfolding to_int64
to_int64_negsuc a h = ground arith

+ℤ_pos : (a b : ℕ) → pos a +ℤ pos b ≡ pos (a + b)
unfolding ◌+ℤ◌
+ℤ_pos a b = ground arith

minutes_exact :
    (m : ℕ)
    → m * 60000 < 2 ^ 63
    → to_int64 (scale 1000 (to_int64 (scale 60 (pos m)))) ≡ pos (m * 60000)
minutes_exact m h =
    rw (to_int64_pos (60 * m) (omega arith))
      (to_int64_pos (1000 * (60 * m)) (omega arith) ∙ ap pos (omega arith))

sum_exact : (a b : ℕ) → a + b < 2 ^ 63 → to_int64 (pos a +ℤ pos b) ≡ pos (a + b)
sum_exact a b h = rw (+ℤ_pos a b) (to_int64_pos (a + b) h)

-- the retention base where it is set, or else the creation date
abbrev pub start_of : ℕ → ℕ → ℕ
start_of created base = if ltb 0 base then base else created

-- For dates and a retention that are not negative, and with an end below 2^63, nothing wraps: a
-- retention of `m` minutes ends `m * 60000` milliseconds after the retention base, where that is
-- set, and after the creation date, where it is 0.
pub get_retention_timestamp_ms_exact :
    (r : RetentionEntry) (m created base : ℕ)
    → r.retention ≡ pos m
    → r.creation_date ≡ pos created
    → r.retention_base ≡ pos base
    → start_of created base + m * 60000 < 2 ^ 63
    → get_retention_timestamp_ms r ≡ pos (start_of created base + m * 60000)
unfolding get_retention_timestamp_ms
get_retention_timestamp_ms_exact r m created base er ec eb h = elim (Bool-cases (ltb 0 base)) [
  | inl is_set ↦
      simp (er, ec, eb, minutes_exact m (omega arith))
        (ground (arith, sum_exact base (m * 60000) (ground arith)))
  | inr unset ↦
      simp (er, ec, eb, minutes_exact m (omega arith))
        (ground (arith, sum_exact created (m * 60000) (ground arith)))
]
