-- ===== src/Session/FileIds.antt =====
-- GetFileId of csession.cpp, and the return of a number when its file is complete.
use boost_asio_threadpool.Base.{
  Bool, List, Option, [], ap, arith, false, get_or, get_or-set_self, if◌then◌else◌, inl, inr, ◌++◌,
  length, none, refl, replicate, set, some, suc, sym, true, zero, ℕ, ◌+◌, ◌<◌, ◌∙◌, ◌∷◌, ◌≡◌, ◌≢◌,
  ◌⊎◌,
}
use mathlib.Core.Bool.{false≢true}

-- `MAX_UPLOAD_NUM`.
abbrev pub max_upload_num : ℕ
max_upload_num = 5

-- `memset(m_FileIds, true, ...)`: a `true` is a free number.
abbrev pub all_free : List Bool
all_free = replicate max_upload_num true

-- The loop over `m_FileIds`, from `i` on: `none` stands for -1.
first_free : ℕ → List Bool → Option ℕ
first_free i [] = none
first_free i (free ∷ rest) = if free then some i else first_free (i + 1) rest

abbrev take_id : List Bool → Option ℕ → List Bool × Option ℕ
take_id ids none = (ids, none)
take_id ids (some i) = (set ids i false, some i)

unfoldable pub get_file_id : List Bool → List Bool × Option ℕ
unfolding first_free
get_file_id ids = take_id ids (first_free 0 ids)

-- `m_FileIds[m_FileId] = true`.
unfoldable pub release_file_id : List Bool → ℕ → List Bool
release_file_id ids i = set ids i true

first_free_lem :
    (k : ℕ) (ids : List Bool)
    → ((first_free k ids ≡ none) × ((j : ℕ) → get_or ids j false ≡ false))
      ⊎ ((i : ℕ) × (first_free k ids ≡ some (k + i))
          × (get_or ids i false ≡ true)
          × ((j : ℕ) → j < i → get_or ids j false ≡ false))
unfolding first_free
first_free_lem k [] = inl (refl, λ j. refl)
first_free_lem k (true ∷ ids) = inr (0, ground arith, refl, λ j h. absurd (omega arith))
first_free_lem k (false ∷ ids) = elim (first_free_lem (k + 1) ids) [
  | inl (e, all) ↦ inl (e, elim [ zero ↦ refl | suc j ↦ all j ])
  | inr (i, e, here_, before) ↦ inr (
    suc i,
    e ∙ ap some (omega arith),
    here_,
    elim [ zero ↦ λ h. refl | suc j ↦ λ h. before j (omega arith) ],
  )
]

-- A session either has no free number left, and nothing changes, or it hands out its smallest free
-- number, and marks that one.
pub get_file_id_lem :
    (ids : List Bool)
    → ((get_file_id ids ≡ (ids, none)) × ((j : ℕ) → get_or ids j false ≡ false))
      ⊎ ((i : ℕ) × (get_file_id ids ≡ (set ids i false, some i))
          × (get_or ids i false ≡ true)
          × ((j : ℕ) → j < i → get_or ids j false ≡ false))
unfolding get_file_id
get_file_id_lem ids = elim (first_free_lem 0 ids) [
  | inl (e, all) ↦ inl (rw e refl, all)
  | inr (i, e, free, before) ↦
      let e' : first_free 0 ids ≡ some i = e ∙ ap some (omega arith) in
      inr (i, rw e' refl, free, before)
]

-- A number that is in use is never handed out a second time, until it is given back: then a session
-- has a free number again.
pub get_file_id_held :
    (ids : List Bool) (i : ℕ)
    → i < length ids
    → (get_or ids i false ≡ false → (get_file_id ids).1 ≢ some i)
      × ((get_file_id (release_file_id ids i)).1 ≢ none)
unfolding release_file_id
get_file_id_held ids i h = (
  λ held same. elim (get_file_id_lem ids) [
    | inl (e, all) ↦ cc (ap (λ r. r.1) e)
    | inr (k, e, free, before) ↦ cc (ap (λ r. r.1) e)
  ],
  λ gone. elim (get_file_id_lem (set ids i true)) [
    | inl (e, all) ↦ absurd (false≢true (sym (all i) ∙ get_or-set_self ids i true false h))
    | inr (k, e, free, before) ↦ cc (ap (λ r. r.1) e)
  ],
)

first_free_filled :
    (n k : ℕ) (ids : List Bool) → first_free k (replicate n false ++ (true ∷ ids)) ≡ some (k + n)
unfolding first_free
first_free_filled zero k ids = ap some (omega arith)
first_free_filled (suc n) k ids = first_free_filled n (k + 1) ids ∙ ap some (omega arith)

-- The first free number, taken.
set_filled :
    (n : ℕ) (ids : List Bool)
    → set (replicate n false ++ (true ∷ ids)) n false ≡ replicate (suc n) false ++ ids
set_filled zero ids = refl
set_filled (suc n) ids = ap (λ rest. false ∷ rest) (set_filled n ids)

-- The next number of a session that has handed out its first ones.
pub get_file_id_filled :
    (n : ℕ) (ids : List Bool)
    → get_file_id (replicate n false ++ (true ∷ ids)) ≡ (replicate (suc n) false ++ ids, some n)
unfolding get_file_id
get_file_id_filled n ids =
    let next : first_free 0 (replicate n false ++ (true ∷ ids)) ≡ some n =
      first_free_filled n 0 ids ∙ ap some (omega arith) in
    rw (next, set_filled n ids) refl
