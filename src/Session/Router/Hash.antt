-- ===== src/Session/Router/Hash.antt =====
-- The symbol ids of ofe_session1_code/ofe/src/core/tick_router.cpp.
use native.Mathlib.Nat.{mod-lt}
use rudra_org.Common.{
  ℕ, ◌+◌, ◌^◌, ◌<◌, ◌≡◌, refl, ap₂, ◌&&◌, List, [], ◌∷◌, map, foldl, leb, if◌then◌else◌, arith,
}
use rudra_org.Session.Router.{to_upper, hash_step, fnv_offset, compute_symbol_id}

abbrev pub to_lower : ℕ → ℕ
to_lower c = if leb 65 c && leb c 90 then c + 32 else c

upper-lower : (c : ℕ) → to_upper (to_lower c) ≡ to_upper c
upper-lower c = ground arith

map-upper_lower : (symbol : List ℕ) → map to_upper (map to_lower symbol) ≡ map to_upper symbol
map-upper_lower [] = refl
map-upper_lower (c ∷ symbol) = ap₂ ◌∷◌ (upper-lower c) (map-upper_lower symbol)

hash-lt : (cs : List ℕ) (hash : ℕ) → hash < 2 ^ 32 → foldl hash_step hash cs < 2 ^ 32
hash-lt [] hash h = h
hash-lt (c ∷ cs) hash h = hash-lt cs (hash_step hash c) (mod-lt _ (omega arith))

-- A symbol in capitals and the same symbol in small letters have the same id, and every id fits 32
-- bits.
compute_symbol_id_lem :
    (symbol : List ℕ)
    → (compute_symbol_id (map to_lower symbol) ≡ compute_symbol_id symbol)
      × (compute_symbol_id symbol < 2 ^ 32)
unfolding compute_symbol_id
compute_symbol_id_lem symbol =
    (rw (map-upper_lower symbol) refl, hash-lt (map to_upper symbol) fnv_offset (omega arith))
