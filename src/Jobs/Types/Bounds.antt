-- ===== src/Jobs/Types/Bounds.antt =====
-- Bounds on what the helpers of apps/sumweave/internal/jobs/types.go return.
use sumweave.Base.{
  ◌⊎◌, inl, inr, Bool-cases, leb, ◌<◌, ℕ, ◌-◌, ◌≤◌, ◌≡◌, refl, List, [], ◌∷◌, ◌||◌, arith, length,
  length-append, length-take, take, ◌&&◌,
}
use sumweave.Base.Text.{Str, str_eq_iff, trim_space}
use sumweave.Base.Int.{pos, ◌≤ℤ◌}
use sumweave.Jobs.Types.{
  WorkerConfig, ListParams, normalize_worker_config, normalize_list_params, truncate_bounded, cut,
  ellipsis, in_list, intersect_requester_sources, intersect_from, no_sources,
}

length-cut : (s : Str) (n : ℕ) → length (cut s n) ≤ n
unfolding cut
length-cut s n = ground (
  arith,
  length-take n s,
  length-take n ellipsis,
  length-append (take (n - 3) s) ellipsis,
  length-take (n - 3) s,
)

cut_short : (s : Str) (n : ℕ) → length s ≤ n → cut s n ≡ s
unfolding cut
cut_short s n h = ground arith

-- A truncated text takes at most the given number of bytes, and it is the trimmed text as a whole
-- unless that is too long.
pub truncate_bounded_bound :
    (value : Str) (max_len : ℕ)
    → (length (truncate_bounded value max_len) ≤ max_len)
      × ((truncate_bounded value max_len ≡ trim_space value)
          ⊎ (max_len < length (trim_space value)))
unfolding truncate_bounded
truncate_bounded_bound value max_len = (
  length-cut (trim_space value) max_len,
  elim (Bool-cases (leb (length (trim_space value)) max_len)) [
    | inl fits ↦ inl (cut_short (trim_space value) max_len (ground arith))
    | inr long ↦ inr (ground arith)
  ],
)

-- Every setting of a normalised configuration is positive, and a setting is changed only if it is not.
pub normalize_worker_config_positive :
    (cfg : WorkerConfig)
    → let n = normalize_worker_config cfg in
      (pos 1 ≤ℤ n.poll_interval)
      × (pos 1 ≤ℤ n.max_attempts)
      × (pos 1 ≤ℤ n.stale_running_age)
      × ((n.poll_interval ≡ cfg.poll_interval) ⊎ (cfg.poll_interval ≤ℤ pos 0))
      × ((n.max_attempts ≡ cfg.max_attempts) ⊎ (cfg.max_attempts ≤ℤ pos 0))
      × ((n.stale_running_age ≡ cfg.stale_running_age) ⊎ (cfg.stale_running_age ≤ℤ pos 0))
unfolding normalize_worker_config
normalize_worker_config_positive cfg = ground arith

-- A normalised page size lies between 1 and 100, and it is the requested one unless that
-- is not positive or above 100.
pub normalize_list_params_limit :
    (params : ListParams)
    → let n = normalize_list_params params in
      (pos 1 ≤ℤ n.limit)
      × (n.limit ≤ℤ pos 100)
      × ((n.limit ≡ params.limit) ⊎ (params.limit ≤ℤ pos 0) ⊎ (pos 101 ≤ℤ params.limit))
unfolding normalize_list_params
normalize_list_params_limit params = ground arith

in_list-intersect_from :
    (s : Str) (allowed requested : List Str)
    → in_list s (intersect_from allowed requested) ≡ (in_list s requested && in_list s allowed)
unfolding intersect_from in_list
in_list-intersect_from s allowed [] = refl
in_list-intersect_from s allowed (r ∷ rest) =
    ground (arith, in_list-intersect_from s allowed rest, str_eq_iff s r)

-- The sources of a listing are those that are both allowed and requested, or all that are allowed if
-- none is requested: no source is listed that is not allowed.
pub intersect_requester_sources_lem :
    (s : Str) (allowed requested : List Str)
    → in_list s (intersect_requester_sources allowed requested)
      ≡ (in_list s allowed && (no_sources requested || in_list s requested))
unfolding intersect_requester_sources
intersect_requester_sources_lem s allowed [] = ground arith
intersect_requester_sources_lem s allowed (r ∷ rest) =
    ground (arith, in_list-intersect_from s allowed (r ∷ rest))
