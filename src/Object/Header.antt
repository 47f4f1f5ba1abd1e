-- ===== src/Object/Header.antt =====
-- A header that was written in front of a content is parsed back, and the content found behind it.
use go_repo_dojo.Base.{
  ℕ, ◌+◌, ◌≤◌, ◌^◌, ◌-◌, ◌≡◌, refl, ap, ◌∙◌, some, [], ◌∷◌, ◌++◌, arith, Bytes, length, drop,
  drop_past, take-length_append, drop-length_append, length-append, append_assoc, ok,
}
use go_repo_dojo.Text.Laws.{Lacks, index_byte-append}
use go_repo_dojo.Number.{format_uint, parse_uint}
use go_repo_dojo.Number.RoundTrip.{parse_uint-format_uint, format_uint-Lacks}
use go_repo_dojo.Object.{
  ObjectKind, object_kind_blob, object_kind_tree, object_kind_commit, object_kind_tag, name,
  object_kind_from_name, ObjectHeader, parse_object_header, header_str,
}

pub object_kind_from_name-name : (k : ObjectKind) → object_kind_from_name (name k) ≡ ok k
unfolding object_kind_from_name name
object_kind_from_name-name object_kind_blob = refl
object_kind_from_name-name object_kind_tree = refl
object_kind_from_name-name object_kind_commit = refl
object_kind_from_name-name object_kind_tag = refl

name-Lacks : (k : ObjectKind) → Lacks b' ' (name k)
unfolding name
name-Lacks object_kind_blob = omega arith
name-Lacks object_kind_tree = omega arith
name-Lacks object_kind_commit = omega arith
name-Lacks object_kind_tag = omega arith

-- The parser on a kind, a space, a number, a zero byte and a content.
parse_parts :
    (n d content : Bytes) (h : ObjectHeader)
    → Lacks b' ' n
    → Lacks 0 d
    → object_kind_from_name n ≡ ok h.kind
    → parse_uint 10 64 d ≡ some h.size
    → parse_object_header (n ++ (b' ' ∷ (d ++ (0 ∷ content))))
      ≡ ok (h, length d + (length n + 1) + 1)
unfolding parse_object_header
parse_parts n d content h hn hd ek es =
    rw
      (
        index_byte-append n (d ++ (0 ∷ content)) b' ' hn,
        take-length_append n (b' ' ∷ (d ++ (0 ∷ content))) (length n) refl,
        ek,
        drop_past n b' ' (d ++ (0 ∷ content)) _ refl,
        index_byte-append d content 0 hd,
        take-length_append d (0 ∷ content) (length d) refl,
        es,
      )
      refl

-- A header whose size is a uint64 is parsed back from its text, whatever content follows, and the
-- content begins where the parser says.
pub parse_object_header-header_str :
    (h : ObjectHeader) (content : Bytes)
    → h.size ≤ 2 ^ 64 - 1
    → (parse_object_header (header_str h ++ content) ≡ ok (h, length (header_str h)))
      × (drop (length (header_str h)) (header_str h ++ content) ≡ content)
unfolding header_str
parse_object_header-header_str h content fits = (
  rw (append_assoc (name h.kind) _ content, append_assoc (format_uint 10 h.size) _ content)
      (parse_parts (name h.kind) (format_uint 10 h.size) content h (name-Lacks h.kind)
          (format_uint-Lacks 10 h.size 0 (omega arith) (omega arith) (omega arith))
          (object_kind_from_name-name h.kind)
          (parse_uint-format_uint 10 64 h.size (omega arith) (omega arith) fits (omega arith))
        ∙ ap (λ (n : ℕ). ok (h, n))
            (omega (
              arith,
              length-append (name h.kind) (b' ' ∷ (format_uint 10 h.size ++ (0 ∷ []))),
              length-append (format_uint 10 h.size) (0 ∷ []),
            ))),
  drop-length_append (header_str h) content _ refl,
)
