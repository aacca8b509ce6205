-- ===== src/Genes/Tests.antt =====
-- Two signed genes, with a hash that keeps its text.
use Prim.Native.Char.{code}
use Prim.Native.String.{◌∷◌ as push, [] as empty}
use manglekit.Common.{
  inr, ◌⊎◌, true, ◌≡◌, ◌≢◌, refl, String, false, ◌==◌, str_ne, eqb, Option, none, some, List, [],
  ◌∷◌,
}
use manglekit.Genes.{
  Gene, Hash, sign, canonical, preamble, spaced, verify, valid_tier, is_hard_tier,
  set_signature_hex,
}
use manglekit.Genes.Head.{
  Letters, before_body, split_from, split_top_level, after_first, tier_of_call, tier_in_head,
}
use manglekit.Genes.Pool.{
  Manifest, entry, active, those_for, genes_by_name, insert_by_name, load_pool, load_genes,
  load_gene, write_pool,
}
use manglekit.Genes.Compile.{
  compile, compile_all, is_accepted, check_tier_consistency, has_part, are_lines_consistent,
  is_line_consistent, lines_from,
}
use manglekit.Genes.Loaded.{IsHex, IsPool, load_pool-write_pool, load_pool-IsPool}
use manglekit.Genes.Cuts.{every}
use manglekit.Genes.Found.{Lowers}
use manglekit.Genes.Tiers.{IsCall}
use manglekit.Genes.Own.{compile-own_tier}

abbrev unmark : String → Option String
unmark empty = none
unmark (push c s) = some s

abbrev hash : Hash
hash = record {
  Digest = String;
  zero_digest = "";
  same = λ a b. a == b;
  sum256 = λ s. s;
  sum256_again = λ d. d;
  encode_to_string = λ d. push "x" d;
  decode_string = unmark;
}

hash-IsHex : IsHex hash
hash-IsHex = record { decode-encode = λ d. refl; ne_empty = λ d e. cc e }

abbrev letters : Letters
letters = record { to_lower = λ c. c; is_space = λ c. eqb (code c) 32 }

abbrev gene : String → String → List String → String → Gene String
gene name tier intents rules = sign hash (record {
  name = name;
  tier = tier;
  source = "review";
  intents = intents;
  rules = rules;
  signature = "";
  signed = false;
})

-- One intent of two words and two intents have one signature.
joined_intents :
    (gene "a" "T2" ("read write" ∷ []) "p(1).").signature
    ≡ (gene "a" "T2" ("read" ∷ "write" ∷ []) "p(1).").signature
unfolding sign canonical preamble spaced
joined_intents = refl

reads_tier : tier_in_head letters "halt(\"Req\", \"late\", \"T0\") :- late(\"Req\")." ≡ "T0"
unfolding tier_in_head before_body split_from split_top_level after_first tier_of_call valid_tier
reads_tier = refl

-- With a comma in its reason, a halt of the tier T0 is no tier at all.
misses_tier : tier_in_head letters "halt(\"Req\", \"late, unsafe\", \"T0\") :- late(\"Req\")." ≡ ""
unfolding tier_in_head before_body split_from split_top_level after_first tier_of_call valid_tier
misses_tier = refl

abbrev two_genes : List (Gene String)
two_genes = gene "a" "T2" ("read" ∷ []) "p(1)." ∷ gene "b" "T3" [] "q(1)." ∷ []

two_genes-IsPool : IsPool hash [] two_genes
unfolding sign verify valid_tier canonical preamble spaced
two_genes-IsPool = (
  record {
    named = str_ne "a" "" refl;
    new = refl;
    tier = refl;
    rules = str_ne "p(1)." "" refl;
    verified = refl;
  },
  (
    record {
      named = str_ne "b" "" refl;
      new = refl;
      tier = refl;
      rules = str_ne "q(1)." "" refl;
      verified = refl;
    },
    tt,
  ),
)

load_pool-write_pool_example :
    (m : Manifest) × (write_pool hash two_genes ≡ some m) × (load_pool hash m ≡ some two_genes)
load_pool-write_pool_example = load_pool-write_pool hash two_genes hash-IsHex two_genes-IsPool

abbrev manifest : Manifest
manifest = record { version = 1; genes = entry hash (gene "a" "T2" ("read" ∷ []) "p(1).") ∷ [] }

load_pool-IsPool_example : IsPool hash [] (gene "a" "T2" ("read" ∷ []) "p(1)." ∷ [])
unfolding load_pool load_genes load_gene set_signature_hex verify valid_tier sign canonical preamble
    spaced
load_pool-IsPool_example =
    load_pool-IsPool hash manifest (gene "a" "T2" ("read" ∷ []) "p(1)." ∷ []) refl

abbrev denial : String
denial = "deny(\"Req\", \"late\", \"T2\") :- late(\"Req\")."

abbrev denies : Gene String
denies = gene "c" "T2" [] denial

letters-Lowers : Lowers letters
letters-Lowers = record { keeps = λ c h. refl; opens = λ c h. h }

denial-IsCall : IsCall letters denial "T2"
unfolding every valid_tier
denial-IsCall = record {
  pred = "deny(";
  a = "\"Req\"";
  b = " \"late\"";
  c = " \"T2\"";
  gap = " ";
  tail = ":- late(\"Req\").";
  named = inr refl;
  shape = refl;
  plain = (refl, refl, refl, refl);
  ends = inr refl;
  tier = refl;
  valid = refl;
}

denies_compiled : compile letters hash false (denies ∷ []) ≢ none
unfolding compile compile_all is_accepted verify canonical preamble spaced valid_tier is_hard_tier
    check_tier_consistency has_part are_lines_consistent is_line_consistent lines_from tier_in_head
    before_body split_from split_top_level after_first tier_of_call sign
denies_compiled e = cc e

compile-own_tier_example :
    (verify hash denies ≡ true)
    × (valid_tier denies.tier ≡ true)
    × ("T2" ≡ denies.tier)
    × ((is_hard_tier "T2" ≡ false) ⊎ (false ≡ true))
unfolding has_part lines_from sign
compile-own_tier_example =
    compile-own_tier letters letters-Lowers hash false [] [] denies [] [] denial "T2"
      denies_compiled refl refl denial-IsCall

-- The gene without intents stands for all; the order is that of the names.
both_active :
    active hash "read" (gene "b" "T3" [] "q(1)." ∷ gene "a" "T2" ("read" ∷ []) "p(1)." ∷ [])
    ≡ two_genes
unfolding active those_for genes_by_name insert_by_name sign
both_active = refl

only_general : active hash "write" two_genes ≡ gene "b" "T3" [] "q(1)." ∷ []
unfolding active those_for genes_by_name insert_by_name sign
only_general = refl
