-- ===== src/Redis/Cache/Keys.antt =====
-- redis/cache.go: the prefix of the keys of a cache, and `KeyBuilder`.
use txova_go_db.Prelude.{
  ◌≡◌, ◌≢◌, refl, sym, ap, ◌∙◌, List, [], ◌∷◌, ◌++◌, inl, inr, Bool-cases, append-nil, append_assoc,
}
use txova_go_db.Text.{Text, codes, text_eq, Lacks, join, tail_of_join}
use txova_go_db.Text.Members.{text_eq-false, append_cancel}
use txova_go_db.Redis.Cache.{Cache, prefix_key}

pub record KeyBuilder : Type 0 where
  pub service : Text

abbrev pub new_key_builder : Text → KeyBuilder
new_key_builder service = record { service = service }

-- `Key`
pub entity_key : KeyBuilder → Text → Text → Text
entity_key b entity id = b.service ++ (codes ":" ++ (entity ++ (codes ":" ++ id)))

-- The loop over the parts.
pub add_parts : Text → List Text → Text
add_parts result [] = result
add_parts result (part ∷ parts) = add_parts (result ++ (codes ":" ++ part)) parts

pub key_with_parts : KeyBuilder → List Text → Text
unfolding add_parts
key_with_parts b parts = add_parts b.service parts

unfoldable pattern_of : KeyBuilder → Text → Text
pattern_of b entity = b.service ++ (codes ":" ++ (entity ++ codes ":*"))

-- Two texts without colons are told apart by what stands in front of the first colon.
pub split_at_colon :
    (p q k j : Text)
    → Lacks b':' p
    → Lacks b':' q
    → p ++ (codes ":" ++ k) ≡ q ++ (codes ":" ++ j)
    → (p ≡ q) × (k ≡ j)
split_at_colon [] [] k j hp hq e = (refl, cc)
split_at_colon [] (d ∷ q) k j hp (nd, hq) e = absurd (nd cc)
split_at_colon (c ∷ p) [] k j (nc, hp) hq e = absurd (nc cc)
split_at_colon (c ∷ p) (d ∷ q) k j (nc, hp) (nd, hq) e =
    let (same, rest) = split_at_colon p q k j hp hq cc in let first : c ≡ d = cc in (cc, rest)

-- With one prefix, two keys are the same key of the server only if they are the same.
pub prefix_key_injective : (c : Cache) (k j : Text) → prefix_key c k ≡ prefix_key c j → k ≡ j
unfolding prefix_key
prefix_key_injective c k j e = elim (Bool-cases (text_eq c.key_prefix [])) [
  | inl no_prefix ↦ rw no_prefix at e
  | inr prefix ↦
      let joined : c.key_prefix ++ (codes ":" ++ k) ≡ c.key_prefix ++ (codes ":" ++ j) =
        rw prefix at e in
      let rest : codes ":" ++ k ≡ codes ":" ++ j = append_cancel c.key_prefix _ _ joined in cc
]

-- Two caches whose prefixes are not empty and hold no colon use the same key of the server only for
-- the same key under the same prefix.
pub prefix_key-apart :
    (c d : Cache) (k j : Text)
    → c.key_prefix ≢ []
    → d.key_prefix ≢ []
    → Lacks b':' c.key_prefix
    → Lacks b':' d.key_prefix
    → prefix_key c k ≡ prefix_key d j
    → (c.key_prefix ≡ d.key_prefix) × (k ≡ j)
unfolding prefix_key
prefix_key-apart c d k j hc hd lc ld e =
    let nc = text_eq-false c.key_prefix [] hc in
    let nd = text_eq-false d.key_prefix [] hd in
    split_at_colon c.key_prefix d.key_prefix k j lc ld (rw (nc, nd) at e)

add_parts-join :
    (result : Text) (parts : List Text) → add_parts result parts ≡ join (result ∷ parts) (codes ":")
unfolding add_parts join tail_of_join
add_parts-join result [] = sym (append-nil result)
add_parts-join result (part ∷ parts) =
    add_parts-join (result ++ (codes ":" ++ part)) parts
    ∙ append_assoc result (codes ":" ++ part) (tail_of_join (codes ":") parts)

-- KeyWithParts joins the service and the parts by colons, and Key is the one of two parts.
pub key_with_parts-join :
    (b : KeyBuilder) (parts : List Text) (entity id : Text)
    → (key_with_parts b parts ≡ join (b.service ∷ parts) (codes ":"))
      × (entity_key b entity id ≡ key_with_parts b (entity ∷ id ∷ []))
unfolding key_with_parts entity_key join tail_of_join
key_with_parts-join b parts entity id =
    let joined = add_parts-join b.service in
    (
      joined parts,
      sym (
          joined (entity ∷ id ∷ [])
          ∙ ap (λ t. b.service ++ (codes ":" ++ (entity ++ (codes ":" ++ t)))) (append-nil id)),
    )
