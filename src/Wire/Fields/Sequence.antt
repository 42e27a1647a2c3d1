-- ===== src/Wire/Fields/Sequence.antt =====
-- Writes in a row.
use puic.Prelude.{◌+◌, ◌≤◌, ◌≡◌, refl, sym, ◌∙◌, arith}
use puic.Prelude.{List, [], ◌∷◌, append-nil, length}
use puic.Prelude.{length-append, All}
use mathlib.Core.Path.{subst}
use puic.Wire.Writer.{DataWriter, Endianness}
use puic.Wire.Writer.Append.{IsValid, payload, Appends}
use puic.Wire.Writer.Append.{Appends-trans}
use puic.Wire.Fields.{Field}
use puic.Wire.Fields.{IsField, write_field, write_fields}
use puic.Wire.Fields.{encoding, encodings}
use puic.Wire.Fields.Write.{write_field-Appends}

-- Fields that fit together are written one behind the other.
pub write_fields-Appends :
    (e : Endianness) (fs : List Field) (w : DataWriter)
    → w.endianness ≡ e
    → IsValid w
    → All IsField fs
    → w.written + length (encodings e fs) ≤ w.capacity
    → Appends w (encodings e fs) (write_fields w fs)
unfolding write_fields encodings
write_fields-Appends e [] w o v h fits = record {
  done = refl;
  valid = v;
  grown = sym (append-nil (payload w));
  moved = omega arith;
  same_capacity = refl;
  same_order = refl;
}
write_fields-Appends e (f ∷ fs) w o v (hf, h) fits =
    let room : w.written + (length (encoding e f) + length (encodings e fs)) ≤ w.capacity =
      omega (arith, length-append (encoding e f) (encodings e fs)) in
    let head : Appends w (encoding e f) (write_field w f) =
      subst (λ d. Appends w (encoding d f) (write_field w f)) o
        (write_field-Appends f v hf (rw o (omega arith))) in
    rw head.done (
      Appends-trans (write_field w f) (write_fields (write_field w f).1 fs) head (
        write_fields-Appends e fs (write_field w f).1 (head.same_order ∙ o) head.valid h
          (omega (arith, head.moved, head.same_capacity))))
