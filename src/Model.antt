-- ===== src/Model.antt =====
-- crates/panora-core/src/model.rs: selections, content kinds and payloads.
mod Examples
use panora.Prelude.{
  ℕ, ◌+◌, ◌≡◌, refl, ◌↔◌, Bool, true, false, Option, List, [], ◌∷◌, Text, Bytes, codes, length, Eq,
  ◌==◌, nat_eq, list_eq, arith, if◌then◌else◌,
}

pub data Selection : Type 0 where
  clipboard primary : Selection

pub data ContentKind : Type 0 where
  text rich_text link image file_list color binary : ContentKind

unfoldable pub selection_str : Selection → Text
selection_str clipboard = codes "clipboard"
selection_str primary = codes "primary"

unfoldable pub kind_str : ContentKind → Text
kind_str text = codes "text"
kind_str rich_text = codes "richtext"
kind_str link = codes "link"
kind_str image = codes "image"
kind_str file_list = codes "files"
kind_str color = codes "color"
kind_str binary = codes "binary"

-- An unknown name reads as plain text.
unfoldable pub parse_kind : Text → ContentKind
parse_kind s =
    if s == codes "richtext"
    then rich_text
    else if s == codes "link"
    then link
    else if s == codes "image"
    then image
    else if s == codes "files"
    then file_list
    else if s == codes "color"
    then color
    else if s == codes "binary"
    then binary
    else text

-- Every content kind is read back from the name that the database stores for it.
pub parse_kind-kind_str : (k : ContentKind) → parse_kind (kind_str k) ≡ k
unfolding parse_kind kind_str
parse_kind-kind_str text = refl
parse_kind-kind_str _ = refl

abbrev selection_beq : Selection → Selection → Bool
selection_beq clipboard clipboard = true
selection_beq primary primary = true
selection_beq _ _ = false

pub selection_beq_iff : (a b : Selection) → (selection_beq a b ≡ true) ↔ (a ≡ b)
selection_beq_iff a b = ground arith

instance abbrev pub selection_eq : Eq Selection
selection_eq = record { same = selection_beq; same_iff = selection_beq_iff }

abbrev kind_rank : ContentKind → ℕ
kind_rank text = 0
kind_rank rich_text = 1
kind_rank link = 2
kind_rank image = 3
kind_rank file_list = 4
kind_rank color = 5
kind_rank binary = 6

abbrev kind_beq : ContentKind → ContentKind → Bool
kind_beq a b = kind_rank a == kind_rank b

pub kind_beq_iff : (a b : ContentKind) → (kind_beq a b ≡ true) ↔ (a ≡ b)
kind_beq_iff a b = ground arith

instance abbrev pub kind_eq : Eq ContentKind
kind_eq = record { same = kind_beq; same_iff = kind_beq_iff }

pub record MimePayload : Type 0 where
  pub mime : Text
  pub content : Bytes

-- `ClipboardData`: what a backend offers, and the payloads once they have been read.
pub record ClipboardData : Type 0 where
  pub selection : Selection
  pub payloads : List MimePayload
  pub offered_mimes : List Text
  pub source_app : Option Text

unfoldable pub total_size : List MimePayload → ℕ
total_size [] = 0
total_size (p ∷ ps) = length p.content + total_size ps
