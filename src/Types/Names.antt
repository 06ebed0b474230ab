-- ===== src/Types/Names.antt =====
-- The printed forms of the enumerations in core/src/types.rs, read back.
use pg_vectorize.Base.{◌≡◌, ◌↔◌, refl, Bytes, codes, text_eq, text_eq_iff, arith}
use pg_vectorize.Base.Exec.{ok}
use pg_vectorize.Base.Result.{okay}
use pg_vectorize.Types.{
  ModelSource, open_ai, display_source, source_of_string, parse_source, IndexDist, pgv_hnsw_l2,
  display_index, parse_index, index_of_string,
}

-- Both readings of a model source accept what `Display` prints, and give the same source back.
parse_source-display_source :
    (tables : Bytes → Bytes) (m : ModelSource)
    → (parse_source tables (display_source m) ≡ okay m) × (source_of_string (display_source m) ≡ m)
unfolding parse_source display_source source_of_string text_eq
parse_source-display_source tables open_ai = (refl, refl)
parse_source-display_source tables _ = (refl, refl)

-- The index kinds.
module _ (s : Bytes) where
  parse_index_sound : (d : IndexDist) → parse_index s ≡ okay d → s ≡ display_index d
  unfolding parse_index display_index
  parse_index_sound d h = ground (
    arith,
    text_eq_iff s (codes "pgv_hnsw_l2"),
    text_eq_iff s (codes "pgv_hnsw_ip"),
    text_eq_iff s (codes "pgv_hnsw_cosine"),
    text_eq_iff s (codes "vsc_diskann_cosine"),
  )

  index_of_string_sound : (d : IndexDist) → index_of_string s ≡ ok d → s ≡ display_index d
  unfolding index_of_string display_index
  index_of_string_sound d h = ground (
    arith,
    text_eq_iff s (codes "pgv_hnsw_l2"),
    text_eq_iff s (codes "pgv_hnsw_ip"),
    text_eq_iff s (codes "pgv_hnsw_cosine"),
    text_eq_iff s (codes "vsc_diskann_cosine"),
  )

parse_index-display_index : (d : IndexDist) → parse_index (display_index d) ≡ okay d
unfolding parse_index display_index text_eq
parse_index-display_index pgv_hnsw_l2 = refl
parse_index-display_index _ = refl

index_of_string-display_index : (d : IndexDist) → index_of_string (display_index d) ≡ ok d
unfolding index_of_string display_index text_eq
index_of_string-display_index pgv_hnsw_l2 = refl
index_of_string-display_index _ = refl

-- Each of the two readings of an index kind returns `d` exactly on the printed form of `d`.
parse_index_iff :
    (s : Bytes) (d : IndexDist)
    → ((parse_index s ≡ okay d) ↔ (s ≡ display_index d))
      × ((index_of_string s ≡ ok d) ↔ (s ≡ display_index d))
parse_index_iff s d = (
  (parse_index_sound s d, λ e. rw e (parse_index-display_index d)),
  (index_of_string_sound s d, λ e. rw e (index_of_string-display_index d)),
)
