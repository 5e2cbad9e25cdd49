-- ===== src/Nrt/Tsv.antt =====
-- The source text of a segment: `"".join(f"{eid}\t{text}\n" for eid, text in buffer)`.
use Prim.Native.String.{String}
use Prim.Native.String.{◌++◌ as text_append}
use text.Mathlib.TextLemmas.{nil-append, append_assoc as text_append_assoc}
use cascade_search_engine.Prelude.{List, [], ◌∷◌, ◌++◌, map, ◌≡◌, sym, ap, ◌∙◌}

-- `(external_id, text)`
abbrev pub Document : Type 0
Document = String × String

unfoldable pub join : List String → String
join [] = ""
join (s ∷ rest) = text_append s (join rest)

unfoldable pub line : Document → String
line (eid, text) = text_append eid (text_append "\t" (text_append text "\n"))

unfoldable pub tsv : List Document → String
unfolding join line
tsv documents = join (map line documents)

pub join-append : (xs ys : List String) → join (xs ++ ys) ≡ text_append (join xs) (join ys)
unfolding join
join-append [] ys = sym (nil-append (join ys))
join-append (x ∷ xs) ys =
    ap (text_append x) (join-append xs ys) ∙ sym (text_append_assoc x (join xs) (join ys))
