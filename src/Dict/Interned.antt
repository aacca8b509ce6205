-- ===== src/Dict/Interned.antt =====
-- Every number belongs to one text.
use manglekit.Common.{
  ℕ, ◌+◌, ◌%◌, ◌^◌, ◌≤◌, ◌<◌, ◌≡◌, refl, ap, sym, ◌∙◌, inl, inr, String, Bool-cases, none, some,
  Option-cases, arith, eqb, if◌then◌else◌, lookup, lookup-insert, eq_iff, ◌==◌,
}
use manglekit.Dict.{
  Dict, new_sharded_dict, lookup_id, with_pair, set_shard, shard_for, get_or_create_id, get_string,
}
use manglekit.Dict.Scan.{lookup_id-insert_id, scan_sound, scan_complete}

module _ (hash : String → ℕ) where
  -- A text stands in its own shard, under a number handed out before, and the two maps of a shard say
  -- the same.
  pub record IsDict (d : Dict) : Type 0 where
    pub placed :
        (i : ℕ) (s : String) (id : ℕ)
        → lookup s (d.shards i).str_to_id ≡ some id
        → lookup_id id (d.shards i).id_to_str ≡ some s
    pub known :
        (i id : ℕ) (s : String)
        → lookup_id id (d.shards i).id_to_str ≡ some s
        → (id ≤ d.next_id) × (i ≡ shard_for hash s) × (lookup s (d.shards i).str_to_id ≡ some id)
    pub own :
        (i j id : ℕ) (s t : String)
        → lookup_id id (d.shards i).id_to_str ≡ some s
        → lookup_id id (d.shards j).id_to_str ≡ some t
        → i ≡ j

  pub new-IsDict : IsDict new_sharded_dict
  unfolding lookup lookup_id
  new-IsDict = record {
    placed = λ i s id h. absurd (cc);
    known = λ i id s h. absurd (cc);
    own = λ i j id s t h k. absurd (cc);
  }

  -- The dictionary with a new text.
  abbrev grown : String → Dict → Dict
  grown s d =
      let i = shard_for hash s in
      record {
        shards = set_shard i (with_pair s (d.next_id + 1) (d.shards i)) d.shards;
        next_id = d.next_id + 1;
      }

  lookup-grown :
      (s t : String) (j : ℕ) (d : Dict)
      → lookup t ((grown s d).shards j).str_to_id ≡ (
          if eqb j (shard_for hash s)
          then if s == t then some (d.next_id + 1) else lookup t (d.shards j).str_to_id
          else lookup t (d.shards j).str_to_id)
  lookup-grown s t j d = elim (Bool-cases (eqb j (shard_for hash s))) [
    | inl z ↦
        let e : j ≡ shard_for hash s = ground arith in
        rw z (
          lookup-insert s t (d.next_id + 1) (d.shards (shard_for hash s)).str_to_id
          ∙ ap (λ (k : ℕ). if s == t then some (d.next_id + 1) else lookup t (d.shards k).str_to_id)
              (sym e))
    | inr z ↦ rw z refl
  ]

  lookup_id-grown :
      (s : String) (id j : ℕ) (d : Dict)
      → lookup_id id ((grown s d).shards j).id_to_str ≡ (
          if eqb j (shard_for hash s)
          then if eqb (d.next_id + 1) id then some s else lookup_id id (d.shards j).id_to_str
          else lookup_id id (d.shards j).id_to_str)
  lookup_id-grown s id j d = elim (Bool-cases (eqb j (shard_for hash s))) [
    | inl z ↦
        let e : j ≡ shard_for hash s = ground arith in
        rw z (
          lookup_id-insert_id (d.next_id + 1) id s (d.shards (shard_for hash s)).id_to_str
          ∙ ap
              (λ (k : ℕ).
                if eqb (d.next_id + 1) id then some s else lookup_id id (d.shards k).id_to_str)
              (sym e))
    | inr z ↦ rw z refl
  ]

  grown-IsDict :
      (s : String) (d : Dict)
      → IsDict d
      → lookup s (d.shards (shard_for hash s)).str_to_id ≡ none
      → IsDict (grown s d)
  grown-IsDict s d h fresh = record {
    placed = λ i t id e. ground (
      arith,
      lookup-grown s t i d,
      lookup_id-grown s id i d,
      eq_iff s t,
      h.placed i t id,
      h.known i id t,
    );
    known = λ i id t e.
        ground (arith, lookup-grown s t i d, lookup_id-grown s id i d, eq_iff s t, h.known i id t);
    own = λ i j id t u e f. ground (
      arith,
      lookup_id-grown s id i d,
      lookup_id-grown s id j d,
      h.own i j id t u,
      h.known i id t,
      h.known j id u,
    );
  }

  get_string-lookup_id :
      (d : Dict) (j id : ℕ) (s : String)
      → IsDict d
      → lookup_id id (d.shards j).id_to_str ≡ some s
      → get_string id d ≡ some s
  unfolding get_string
  get_string-lookup_id d j id s h e =
      let (_, here, _) = h.known j id s e in
      scan_complete 32 0 id d j s (omega arith) (ground (arith, here)) e
        (λ k t f. h.own k j id t s f e)

  grown-keeps :
      (s : String) (d : Dict) (id : ℕ) (t : String)
      → IsDict d
      → lookup s (d.shards (shard_for hash s)).str_to_id ≡ none
      → get_string id d ≡ some t
      → get_string id (grown s d) ≡ some t
  unfolding get_string
  grown-keeps s d id t h fresh e =
      let (j, _, _, stands) = scan_sound 32 0 id d {s = t} e in
      let (bound, _, _) = h.known j id t stands in
      get_string-lookup_id (grown s d) j id t (grown-IsDict s d h fresh)
        (ground (arith, lookup_id-grown s id j d))

  grown-finds :
      (s : String) (d : Dict)
      → IsDict d
      → lookup s (d.shards (shard_for hash s)).str_to_id ≡ none
      → get_string (d.next_id + 1) (grown s d) ≡ some s
  grown-finds s d h fresh =
      get_string-lookup_id (grown s d) (shard_for hash s) (d.next_id + 1) s
        (grown-IsDict s d h fresh)
        (ground (arith, lookup_id-grown s (d.next_id + 1) (shard_for hash s) d))

  -- `GetOrCreateID` keeps the dictionary well formed while numbers are left, the number that it
  -- returns gives the text back, and every number handed out before still gives its text.
  pub get_or_create_id-IsDict :
      (s : String) (d : Dict)
      → IsDict d
      → d.next_id + 1 < 2 ^ 64
      → let (id, d') = get_or_create_id hash s d in
        IsDict d'
        × (get_string id d' ≡ some s)
        × ((k : ℕ) (t : String) → get_string k d ≡ some t → get_string k d' ≡ some t)
  unfolding get_or_create_id
  get_or_create_id-IsDict s d h room =
      let i = shard_for hash s in
      let fits : (d.next_id + 1) % 2 ^ 64 ≡ d.next_id + 1 = omega arith in
      elim (Option-cases (lookup s (d.shards i).str_to_id)) [
        | inr (id, z) ↦
            rw (z, get_or_create_id)
              (h, get_string-lookup_id d i id s h (h.placed i s id z), λ k t e. e)
        | inl z ↦
            rw (z, get_or_create_id, fits)
              (grown-IsDict s d h z, grown-finds s d h z, λ k t e. grown-keeps s d k t h z e)
      ]
