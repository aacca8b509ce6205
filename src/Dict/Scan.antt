-- ===== src/Dict/Scan.antt =====
-- What the loop over the shards finds.
use manglekit.Common.{
  ℕ, zero, suc, ◌+◌, ◌≤◌, ◌<◌, ◌≡◌, ◌≢◌, refl, ap, ◌∙◌, inl, inr, String, some, Option-cases, List,
  [], ◌∷◌, arith, eqb, if◌then◌else◌,
}
use manglekit.Dict.{Dict, lookup_id, insert_id, scan}

pub lookup_id-insert_id :
    (k j : ℕ) (s : String) (m : List (ℕ × String))
    → lookup_id j (insert_id k s m) ≡ (if eqb k j then some s else lookup_id j m)
unfolding lookup_id insert_id
lookup_id-insert_id k j s [] = refl
lookup_id-insert_id k j s ((i, t) ∷ m) = ground (arith, lookup_id-insert_id k j s m)

-- A text that is found stands in a shard.
pub scan_sound :
    (left i id : ℕ) (d : Dict) {s : String}
    → scan left i id d ≡ some s
    → (j : ℕ) × (i ≤ j) × (j < i + left) × (lookup_id id (d.shards j).id_to_str ≡ some s)
unfolding scan
scan_sound zero i id d h = absurd (cc)
scan_sound (suc left) i id d {s} h = elim (Option-cases (lookup_id id (d.shards i).id_to_str)) [
  | inr (t, z) ↦ (i, omega arith, omega arith, z ∙ rw (z, scan) at h)
  | inl z ↦
      let (j, low, high, found) = scan_sound left (suc i) id d {s = s} (rw (z, scan) at h) in
      (j, omega arith, omega arith, found)
]

-- A text of one shard only is found.
pub scan_complete :
    (left i id : ℕ) (d : Dict) (j : ℕ) (s : String)
    → i ≤ j
    → j < i + left
    → lookup_id id (d.shards j).id_to_str ≡ some s
    → ((k : ℕ) (t : String) → lookup_id id (d.shards k).id_to_str ≡ some t → k ≡ j)
    → scan left i id d ≡ some s
unfolding scan
scan_complete zero i id d j s low high h only = absurd (omega arith)
scan_complete (suc left) i id d j s low high h only =
    elim (Option-cases (lookup_id id (d.shards i).id_to_str)) [
      | inr (t, z) ↦
          let same : lookup_id id (d.shards i).id_to_str ≡ lookup_id id (d.shards j).id_to_str =
            ap (λ (k : ℕ). lookup_id id (d.shards k).id_to_str) (only i t z) in
          rw (same ∙ h, scan) refl
      | inl z ↦
          let other : i ≢ j =
            λ e. cc (ap (λ (k : ℕ). lookup_id id (d.shards k).id_to_str) e, z, h) in
          rw (z, scan)
            (scan_complete left (suc i) id d j s (omega (arith, other)) (omega arith) h only)
    ]
