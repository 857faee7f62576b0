-- ===== src/Relay/Registry/Loop.antt =====
-- `register` finds a free ID: the loop ends once more different IDs are drawn than hosts are online.
use remotedesk.Prelude.{
  ℕ, ◌<◌, ◌≡◌, ◌≢◌, refl, sym, ◌∙◌, inl, inr, List, [], ◌∷◌, Option, none, some, Bytes, lookup,
  delete, lookup-delete, length-delete-lt, bytes_eq_iff, length, All, Option-cases, arith,
}
use remotedesk.Id.{Rand, new_id}
use remotedesk.Relay.Registry.{register_loop}

-- The IDs that the draws give, one for each.
abbrev pub Draws : List Rand → List Bytes → Type 0
Draws [] [] = Unit {0}
Draws (draw ∷ draws) (id ∷ ids) = (new_id draw ≡ some id) × Draws draws ids
Draws [] (id ∷ ids) = ⊥
Draws (draw ∷ draws) [] = ⊥

abbrev pub Distinct : List Bytes → Type 0
Distinct [] = Unit {0}
Distinct (id ∷ ids) = All (λ other. other ≢ id) ids × Distinct ids

-- A free ID among the candidates.
abbrev pub Free : List (Bytes × ℕ) → Option Bytes → Type 0
Free hosts none = ⊥
Free hosts (some id) = lookup id hosts ≡ none

-- The loop's result depends on the hosts only through the candidates that it looks up.
loop_cong :
    (k : Bytes) (draws : List Rand) (ids : List Bytes) (hosts : List (Bytes × ℕ))
    → Draws draws ids
    → All (λ other. other ≢ k) ids
    → register_loop draws (delete k hosts) ≡ register_loop draws hosts
unfolding register_loop
loop_cong k [] [] hosts d h = refl
loop_cong k [] (id ∷ ids) hosts d h = absurd d
loop_cong k (draw ∷ draws) [] hosts d h = absurd d
loop_cong k (draw ∷ draws) (id ∷ ids) hosts d h =
    ground (arith, lookup-delete k id hosts, bytes_eq_iff k id, loop_cong k draws ids hosts)

-- One round of the loop.
round_taken :
    (draw : Rand) (draws : List Rand) (hosts : List (Bytes × ℕ)) {id : Bytes} {addr : ℕ}
    → new_id draw ≡ some id
    → lookup id hosts ≡ some addr
    → register_loop (draw ∷ draws) hosts ≡ register_loop draws hosts
unfolding register_loop
round_taken draw draws hosts e taken = ground arith

round_free :
    (draw : Rand) (draws : List Rand) (hosts : List (Bytes × ℕ)) {id : Bytes}
    → new_id draw ≡ some id
    → lookup id hosts ≡ none
    → register_loop (draw ∷ draws) hosts ≡ some id
unfolding register_loop
round_free draw draws hosts e free = ground arith

-- The loop never returns an ID that an online host has.
pub register_loop-free :
    (draws : List Rand) (hosts : List (Bytes × ℕ)) (id : Bytes)
    → register_loop draws hosts ≡ some id
    → lookup id hosts ≡ none
unfolding register_loop
register_loop-free [] hosts id h = cc
register_loop-free (draw ∷ draws) hosts id h = ground (arith, register_loop-free draws hosts id)

-- If the draws give different IDs, and more of them than hosts are online, the loop ends with an ID
-- that no online host has.
pub register_loop_ends :
    (draws : List Rand) (ids : List Bytes) (hosts : List (Bytes × ℕ))
    → Draws draws ids
    → Distinct ids
    → length hosts < length ids
    → (id : Bytes) × (register_loop draws hosts ≡ some id) × (lookup id hosts ≡ none)
register_loop_ends [] [] hosts d u h = absurd (omega arith)
register_loop_ends [] (id ∷ ids) hosts d u h = absurd d
register_loop_ends (draw ∷ draws) [] hosts d u h = absurd d
register_loop_ends (draw ∷ draws) (id ∷ ids) hosts d u h = elim (Option-cases (lookup id hosts)) [
  | inl free ↦ (id, round_free draw draws hosts d.0 free, free)
  | inr (addr, taken) ↦
      let (found, e, _) =
        register_loop_ends draws ids (delete id hosts) d.1 u.1
          (omega (arith, length-delete-lt id hosts addr taken)) in
      let ends : register_loop (draw ∷ draws) hosts ≡ some found =
        round_taken draw draws hosts d.0 taken ∙ sym (loop_cong id draws ids hosts d.1 u.0) ∙ e in
      (found, ends, register_loop-free (draw ∷ draws) hosts found ends)
]
