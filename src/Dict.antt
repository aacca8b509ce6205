-- ===== src/Dict.antt =====
-- internal/adapters/storage/dict/sharded.go: numbers for texts, kept in 32 shards. The hash of a
-- text is a parameter; a call holds its shard's lock, and is one step here.
pub mod Scan
pub mod Interned
mod Tests
use manglekit.Common.{
  ℕ, zero, suc, ◌+◌, ◌%◌, ◌^◌, String, Bool, Option, none, some, List, [], ◌∷◌, Map, lookup, insert,
  eqb, ltb, if◌then◌else◌,
}

-- dictShard
pub record Shard : Type 0 where
  pub str_to_id : Map ℕ
  pub id_to_str : List (ℕ × String)

-- ShardedDict; the array of shards by its index.
pub record Dict : Type 0 where
  pub shards : ℕ → Shard
  pub next_id : ℕ

abbrev pub num_shards : ℕ
num_shards = 32

abbrev pub new_sharded_dict : Dict
new_sharded_dict = record { shards = λ i. record { str_to_id = []; id_to_str = [] }; next_id = 100 }

unfoldable pub lookup_id : ℕ → List (ℕ × String) → Option String
lookup_id id [] = none
lookup_id id ((k, s) ∷ m) = let rest = lookup_id id m in if eqb k id then some s else rest

unfoldable pub insert_id : ℕ → String → List (ℕ × String) → List (ℕ × String)
insert_id id s [] = (id, s) ∷ []
insert_id id s ((k, t) ∷ m) =
    let rest = insert_id id s m in if eqb k id then (id, s) ∷ m else (k, t) ∷ rest

-- A shard that has one pair more.
abbrev pub with_pair : String → ℕ → Shard → Shard
with_pair s id sh = record {
  str_to_id = insert s id sh.str_to_id;
  id_to_str = insert_id id s sh.id_to_str;
}

abbrev pub set_shard : ℕ → Shard → (ℕ → Shard) → ℕ → Shard
set_shard i sh shards j = if eqb j i then sh else shards j

module _ (hash : String → ℕ) where
  abbrev pub shard_for : String → ℕ
  shard_for s = hash s % num_shards

  unfoldable pub get_or_create_id : String → Dict → ℕ × Dict
  get_or_create_id s d =
      let i = shard_for s in
      let id = (d.next_id + 1) % 2 ^ 64 in
      elim (lookup s (d.shards i).str_to_id) [
        | some found ↦ (found, d)
        | none ↦ (
          id,
          record { shards = set_shard i (with_pair s id (d.shards i)) d.shards; next_id = id },
        )
      ]

  unfoldable pub load : String → ℕ → Dict → Dict
  load s id d =
      let i = shard_for s in
      record {
        shards = set_shard i (with_pair s id (d.shards i)) d.shards;
        next_id = if ltb id d.next_id then d.next_id else (id + 1) % 2 ^ 64;
      }

-- The loop over the shards, `left` of them from number `i` on.
unfoldable pub scan : ℕ → ℕ → ℕ → Dict → Option String
scan zero i id d = none
scan (suc left) i id d = elim (lookup_id id (d.shards i).id_to_str) [
  | some s ↦ some s
  | none ↦ scan left (suc i) id d
]

unfoldable pub get_string : ℕ → Dict → Option String
get_string id d = scan num_shards 0 id d
