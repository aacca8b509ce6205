-- ===== src/Genes/Loaded.antt =====
-- What stands in a pool that was loaded, and what a pool that was written loads as.
use mathlib.Core.Path.{subst}
use manglekit.Common.{
  ◌≡◌, ◌≢◌, refl, ap, sym, not, eqb, String, Bool, true, false, ◌==◌, ◌||◌, str_eq_false, str_ne,
  or_false, not-false, Option, none, some, some_eq, List, [], ◌∷◌, contains, arith, Bool-cases,
  Option-cases, inl, inr, if◌then◌else◌,
}
use manglekit.Genes.{Gene, Hash, valid_tier, set_signature_hex, verify}
use manglekit.Genes.Pool.{
  Entry, Manifest, bare, entry, load_gene, load_genes, load_pool, entries, write_pool,
}

-- What follows a test that ends with an error.
passes :
    {A : Type 0} (b : Bool) (x : Option A) (a : A)
    → (if b then none else x) ≡ some a
    → (b ≡ false) × (x ≡ some a)
passes true x a h = absurd (cc h)
passes false x a h = (refl, h)

module _ (H : Hash) where
  open H use {Digest}

  -- A gene that a pool may hold beside those whose names were seen.
  pub record IsGene (seen : List String) (g : Gene Digest) : Type 0 where
    pub named : g.name ≢ ""
    pub new : contains seen g.name ≡ false
    pub tier : valid_tier g.tier ≡ true
    pub rules : g.rules ≢ ""
    pub verified : verify H g ≡ true

  abbrev pub IsPool : List String → List (Gene Digest) → Type 0
  IsPool seen [] = Unit
  IsPool seen (g ∷ gs) = IsGene seen g × IsPool (g.name ∷ seen) gs

  load_gene-IsGene :
      (seen : List String) (e : Entry) (g : Gene Digest)
      → load_gene H seen e ≡ some g
      → IsGene seen g × (g.name ≡ e.name)
  unfolding load_gene set_signature_hex
  load_gene-IsGene seen e g h =
      let (a, h1) = passes (e.name == "" || contains seen e.name) _ g h in
      let (b, h2) = passes (not (valid_tier e.tier)) _ g h1 in
      let (c, h3) = passes (e.rules == "") _ g h2 in
      let (d, h4) = passes (e.signature == "") _ g h3 in
      let (nameless, known) = or_false (e.name == "") (contains seen e.name) a in
      elim (Option-cases (H.decode_string e.signature)) [
        | inl z ↦ absurd (cc (rw z at h4))
        | inr (digest, z) ↦
            let read : Gene Digest = record (bare H e) { signature = digest; signed = true } in
            elim (Bool-cases (verify H read)) [
              | inr y ↦ absurd (cc (rw (z, y) at h4))
              | inl y ↦
                  subst (λ (x : Gene Digest). IsGene seen x × (x.name ≡ e.name))
                    (some_eq (rw (z, y) at h4))
                    (
                      record {
                        named = str_ne e.name "" nameless;
                        new = known;
                        tier = not-false (valid_tier e.tier) b;
                        rules = str_ne e.rules "" c;
                        verified = y;
                      },
                      refl,
                    )
            ]
      ]

  load_genes-IsPool :
      (seen : List String) (es : List Entry) (gs : List (Gene Digest))
      → load_genes H seen es ≡ some gs
      → IsPool seen gs
  unfolding load_genes
  load_genes-IsPool seen [] gs h = rw (← some_eq h) tt
  load_genes-IsPool seen (e ∷ es) gs h = elim (Option-cases (load_gene H seen e)) [
    | inl z ↦ absurd (cc (rw (z, load_genes) at h))
    | inr (g, z) ↦ elim (Option-cases (load_genes H (e.name ∷ seen) es)) [
      | inl y ↦ absurd (cc (rw (z, y, load_genes) at h))
      | inr (rest, y) ↦
          let (k, same) = load_gene-IsGene seen e g z in
          subst (IsPool seen) (some_eq (rw (z, y, load_genes) at h))
            (k, rw same (load_genes-IsPool (e.name ∷ seen) es rest y))
    ]
  ]

  -- The hexadecimal text of a digest can be read again, and is not empty.
  pub record IsHex : Type 0 where
    pub decode-encode : (d : Digest) → H.decode_string (H.encode_to_string d) ≡ some d
    pub ne_empty : (d : Digest) → H.encode_to_string d ≢ ""

  verify-signed : (g : Gene Digest) → verify H g ≡ true → g.signed ≡ true
  unfolding verify
  verify-signed g h = ground arith

  load_gene-entry :
      (seen : List String) (g : Gene Digest)
      → IsHex
      → IsGene seen g
      → load_gene H seen (entry H g) ≡ some g
  unfolding load_gene set_signature_hex verify
  load_gene-entry seen g hex k =
      let signed : record g { signed = true } ≡ g =
        ap (λ b. record g { signed = b }) (sym (verify-signed g k.verified)) in
      let named = str_eq_false g.name "" k.named in
      let ruled = str_eq_false g.rules "" k.rules in
      let written = str_eq_false (H.encode_to_string g.signature) "" (hex.ne_empty g.signature) in
      rw (named, k.new, k.tier, ruled, written, hex.decode-encode g.signature)
        (subst (λ (x : Gene Digest). (if verify H x then some x else none) ≡ some g) (sym signed)
          (rw k.verified refl))

  load_genes-entries :
      (seen : List String) (gs : List (Gene Digest))
      → IsHex
      → IsPool seen gs
      → (es : List Entry) × (entries H gs ≡ some es) × (load_genes H seen es ≡ some gs)
  unfolding entries load_genes
  load_genes-entries seen [] hex h = ([], refl, refl)
  load_genes-entries seen (g ∷ gs) hex (h, more) =
      let (es, written, loaded) = load_genes-entries (g.name ∷ seen) gs hex more in
      let one = load_gene-entry seen g hex h in
      (
        entry H g ∷ es,
        rw (verify-signed g h.verified, written) refl,
        rw (one, loaded, load_genes) refl,
      )

  -- Genes that have names, all different, valid tiers, rules, and signatures that fit, can be written
  -- to a manifest, and the manifest loads as these genes, if the hexadecimal text of a digest can be
  -- read again and is not empty.
  pub load_pool-write_pool :
      (gs : List (Gene Digest))
      → IsHex
      → IsPool [] gs
      → (m : Manifest) × (write_pool H gs ≡ some m) × (load_pool H m ≡ some gs)
  unfolding load_pool write_pool
  load_pool-write_pool gs hex h =
      let (es, written, loaded) = load_genes-entries [] gs hex h in
      (record { version = 1; genes = es }, rw (written, write_pool) refl, loaded)

  -- The genes of a manifest that loads have names, all different, valid tiers, rules, and signatures
  -- that fit.
  pub load_pool-IsPool :
      (m : Manifest) (gs : List (Gene Digest)) → load_pool H m ≡ some gs → IsPool [] gs
  unfolding load_pool
  load_pool-IsPool m gs h = elim (Bool-cases (eqb m.version 1)) [
    | inl z ↦ load_genes-IsPool [] m.genes gs (rw (z, load_pool) at h)
    | inr z ↦ absurd (cc (rw (z, load_pool) at h))
  ]
