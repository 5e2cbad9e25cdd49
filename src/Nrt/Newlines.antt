-- ===== src/Nrt/Newlines.antt =====
-- How Python reads text: `read_text()` gives "\n" for "\r\n" and for "\r". `write_text` leaves a text as it is.
use Prim.Native.Char.{Char, code}
use Prim.Native.String.{String}
use Prim.Native.String.{◌++◌ as text_append}
use text.Mathlib.TextLemmas.{nil-append, cons-append, append_assoc as text_append_assoc}
use cascade_search_engine.Prelude.{
  Bool, true, false, ◌&&◌, List, [], ◌∷◌, map, map-append, concat, ◌≡◌, refl, sym, ap, ◌∙◌, nat_beq,
  if◌then◌else◌,
}
use cascade_search_engine.Nrt.Tsv.{Document, join, line, tsv, join-append}

-- what a character gives before the rest, by whether it is a "\r" and whether it ends a "\r\n"
abbrev emit : Bool → Bool → Char → String → String
emit is_return ends c rest =
    if is_return then String.◌∷◌ "\n" rest else if ends then rest else String.◌∷◌ c rest

-- The text as it is read, the character before it being a "\r" or not.
unfoldable pub universal : Bool → String → String
universal after String.[] = ""
universal after (String.◌∷◌ c s) =
    let is_return = nat_beq (code c) b'\r' in
    emit is_return (after && nat_beq (code c) b'\n') c (universal is_return s)

reads : universal false "a\r\nb\rc\n" ≡ "a\nb\nc\n"
unfolding universal
reads = refl

universal-cons :
    (after r : Bool) (c : Char) (s : String)
    → nat_beq (code c) b'\r' ≡ r
    → universal after (String.◌∷◌ c s) ≡ emit r (after && nat_beq (code c) b'\n') c (universal r s)
unfolding universal
universal-cons after r c s e =
    ap (λ b. emit b (after && nat_beq (code c) b'\n') c (universal b s)) e

universal-emit :
    (ends r : Bool) (c : Char) (rest : String)
    → nat_beq (code c) b'\r' ≡ r
    → universal false rest ≡ rest
    → universal false (emit r ends c rest) ≡ emit r ends c rest
unfolding universal
universal-emit ends true c rest e same = ap (λ t. String.◌∷◌ "\n" t) same
universal-emit true false c rest e same = same
universal-emit false false c rest e same =
    universal-cons false false c rest e ∙ ap (λ t. String.◌∷◌ c t) same

-- A text that was read has only "\n".
pub universal_idem :
    (after : Bool) (s : String) → universal false (universal after s) ≡ universal after s
unfolding universal
universal_idem after String.[] = refl
universal_idem after (String.◌∷◌ c s) =
    universal-emit (after && nat_beq (code c) b'\n') (nat_beq (code c) b'\r') c
      (universal (nat_beq (code c) b'\r') s) refl (universal_idem (nat_beq (code c) b'\r') s)

emit-append :
    (r ends : Bool) (c : Char) (s t : String)
    → emit r ends c (text_append s t) ≡ text_append (emit r ends c s) t
emit-append true ends c s t = sym (cons-append "\n" s t)
emit-append false true c s t = refl
emit-append false false c s t = sym (cons-append c s t)

-- After a "\n" the reading starts anew.
universal-newline :
    (after : Bool) (a b : String)
    → universal after (text_append a (text_append "\n" b))
      ≡ text_append (universal after (text_append a "\n")) (universal false b)
unfolding universal
universal-newline true String.[] b =
    ap (universal true) (nil-append (text_append "\n" b) ∙ cons-append "\n" "" b)
    ∙ ap (universal false) (nil-append b)
    ∙ sym (nil-append (universal false b))
universal-newline false String.[] b =
    ap (universal false) (nil-append (text_append "\n" b) ∙ cons-append "\n" "" b)
    ∙ ap (λ t. String.◌∷◌ "\n" (universal false t)) (nil-append b)
    ∙ sym (cons-append "\n" "" (universal false b) ∙ ap (λ t. String.◌∷◌ "\n" t) (nil-append _))
universal-newline after (String.◌∷◌ c a) b =
    let r = nat_beq (code c) b'\r' in
    let ends = after && nat_beq (code c) b'\n' in
    ap (universal after) (cons-append c a (text_append "\n" b))
    ∙ ap (emit r ends c) (universal-newline r a b)
    ∙ emit-append r ends c (universal r (text_append a "\n")) (universal false b)
    ∙ ap (λ t. text_append t (universal false b))
        (ap (universal after) (sym (cons-append c a "\n")))

universal-line :
    (d : Document) (b : String)
    → universal false (text_append (line d) b)
      ≡ text_append (universal false (line d)) (universal false b)
unfolding line
universal-line (eid, text) b =
    let start = text_append eid (text_append "\t" text) in
    let whole : text_append eid (text_append "\t" (text_append text "\n"))
        ≡ text_append start "\n" =
      ap (text_append eid) (sym (text_append_assoc "\t" text "\n"))
      ∙ sym (text_append_assoc eid (text_append "\t" text) "\n") in
    ap (λ t. universal false (text_append t b)) whole
    ∙ ap (universal false) (text_append_assoc start "\n" b)
    ∙ universal-newline false start b
    ∙ ap (λ t. text_append (universal false t) (universal false b)) (sym whole)

universal-lines :
    (ds : List Document) (b : String)
    → universal false (text_append (join (map line ds)) b)
      ≡ text_append (universal false (join (map line ds))) (universal false b)
unfolding join universal
universal-lines [] b = ap (universal false) (nil-append b) ∙ sym (nil-append (universal false b))
universal-lines (d ∷ ds) b =
    let rest = join (map line ds) in
    ap (universal false) (text_append_assoc (line d) rest b)
    ∙ universal-line d (text_append rest b)
    ∙ ap (text_append (universal false (line d))) (universal-lines ds b)
    ∙ sym (text_append_assoc (universal false (line d)) (universal false rest) (universal false b))
    ∙ ap (λ t. text_append t (universal false b)) (sym (universal-line d rest))

-- Texts of documents read one by one and joined are the text of all of them, read.
pub join-universal :
    (parts : List (List Document))
    → join (map (λ ds. universal false (tsv ds)) parts) ≡ universal false (tsv (concat parts))
unfolding join tsv universal
join-universal [] = refl
join-universal (ds ∷ parts) =
    ap (text_append (universal false (tsv ds))) (join-universal parts)
    ∙ sym (universal-lines ds (tsv (concat parts)))
    ∙ ap (universal false) (
        sym (join-append (map line ds) (map line (concat parts)))
        ∙ ap join (sym (map-append line ds (concat parts))))
