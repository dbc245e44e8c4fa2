-- ===== src/Dns/Names.antt =====
-- Domain names on the wire and as text.
use net_zer.Prelude.{
  Bytes, List, All, ◌++◌, ◌<◌, ◌≡◌, length, ◌∷◌, true, [], ap, arith, sym, refl, append-nil,
  append_assoc,
}
use net_zer.Text.Utf8.{is_utf8}
use net_zer.Dns.{push_label, is_empty}

-- A label that the parser takes: not empty, below the lengths that mark a pointer, and UTF-8.
pub record IsLabel (label : Bytes) : Type 0 where
  pub not_empty : 0 < length label
  pub not_pointer : length label < 192
  pub is_text : is_utf8 label ≡ true

-- Each label behind a byte that holds its length.
abbrev pub wire : List Bytes → Bytes
wire [] = []
wire (l ∷ ls) = length l ∷ (l ++ wire ls)

-- Each label behind a dot.
abbrev pub dotted : List Bytes → Bytes
dotted [] = []
dotted (l ∷ ls) = b'.' ∷ (l ++ dotted ls)

-- The labels with a dot between two of them.
abbrev pub join : List Bytes → Bytes
join [] = []
join (l ∷ ls) = l ++ dotted ls

pub wire-append : (ls ms : List Bytes) → wire (ls ++ ms) ≡ wire ls ++ wire ms
wire-append [] ms = refl
wire-append (l ∷ ls) ms =
    ap (◌∷◌ (length l)) (rw (wire-append ls ms) (sym (append_assoc l (wire ls) (wire ms))))

dotted-append : (ls ms : List Bytes) → dotted (ls ++ ms) ≡ dotted ls ++ dotted ms
dotted-append [] ms = refl
dotted-append (l ∷ ls) ms =
    ap (◌∷◌ b'.') (rw (dotted-append ls ms) (sym (append_assoc l (dotted ls) (dotted ms))))

pub push_label-join :
    (ls : List Bytes) (label : Bytes)
    → All IsLabel ls
    → push_label (join ls) label ≡ join (ls ++ (label ∷ []))
unfolding push_label
push_label-join [] label h = sym (append-nil label)
push_label-join ([] ∷ ls) label h = absurd (omega (arith, h.0.not_empty))
push_label-join ((b ∷ l) ∷ ls) label h =
    rw (dotted-append ls (label ∷ [])) (simp (append_assoc, append-nil))

-- The text of a name is empty exactly when it has no label.
pub is_empty-join : (ls : List Bytes) → All IsLabel ls → is_empty (join ls) ≡ true → ls ≡ []
is_empty-join [] h e = refl
is_empty-join ([] ∷ ls) h e = absurd (omega (arith, h.0.not_empty))
is_empty-join ((b ∷ l) ∷ ls) h e = cc
