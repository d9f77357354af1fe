-- ===== src/Binary/Writer/Safe.antt =====
-- No encoder touches a byte outside its buffer, or one that was written before, on any branch.
use open_pub_sub.Base.{
  ℕ, ◌+◌, ◌≤◌, ◌≡◌, refl, sym, ◌∙◌, Bool, true, false, List, [], ◌++◌, append_assoc, append-nil,
  length, drop, leb, length-append, length-drop, drop-append, leb→le, inl, inr, arith, Bool-cases,
}
use open_pub_sub.Binary.Status.{Status, is_good, is_limits_exceeded}
use open_pub_sub.Binary.Writer.{
  Buffer, Encoder, put, write, done, fail, ◌>>◌, unchecked, also, when, exchange_buffer, rewind,
  encode_with_exchange_buffer, encode_binary,
}

-- `c` is `b` with some more bytes written: what was before the position stays, and the buffer
-- keeps its length.
pub record Extends (b c : Buffer) : Type 0 where
  pub new : List ℕ
  pub kept : c.before ≡ b.before ++ new
  pub size : length new + length c.after ≡ length b.after

pub record Safe (e : Encoder) : Type 0 where
  pub extends : (b : Buffer) → Extends b (e b).1

pub Extends-refl : (b : Buffer) → Extends b b
Extends-refl b = record { new = []; kept = sym (append-nil b.before); size = omega arith }

pub Extends-trans : {b c d : Buffer} → Extends b c → Extends c d → Extends b d
Extends-trans {b} p q = record {
  new = p.new ++ q.new;
  kept = q.kept ∙ rw p.kept (append_assoc b.before p.new q.new);
  size = omega (arith, length-append p.new q.new, p.size, q.size);
}

pub put-Extends : (bs : List ℕ) (b : Buffer) → length bs ≤ length b.after → Extends b (put bs b)
unfolding put
put-Extends bs b h = record {
  new = bs;
  kept = refl;
  size = omega (arith, length-drop (length bs) b.after);
}

rewind-Extends : {b c : Buffer} → Extends b c → Extends b (rewind b c)
unfolding rewind
rewind-Extends {b} {c} p = record {
  new = [];
  kept = sym (append-nil b.before);
  size = rw (p.kept, memory) (omega (arith, length-append p.new c.after, p.size));
}
  where
    memory : drop (length b.before) ((b.before ++ p.new) ++ c.after) ≡ p.new ++ c.after
    memory = rw (append_assoc b.before p.new c.after) (drop-append b.before (p.new ++ c.after))

pub write-Safe : (bs : List ℕ) → Safe (write bs)
unfolding write
write-Safe bs = record {
  extends = λ b. elim (Bool-cases (leb (length bs) (length b.after))) [
    | inl p ↦ rw p (put-Extends bs b (leb→le _ _ p))
    | inr p ↦ rw p (Extends-refl b)
  ];
}

pub done-Safe : Safe done
unfolding done
done-Safe = record { extends = Extends-refl }

pub fail-Safe : (s : Status) → Safe (fail s)
unfolding fail
fail-Safe s = record { extends = Extends-refl }

exchange_buffer-Safe : Safe exchange_buffer
unfolding exchange_buffer
exchange_buffer-Safe = record { extends = Extends-refl }

module _ {e k : Encoder} (se : Safe e) (sk : Safe k) where
  pub >>-Safe : Safe (e >> k)
  unfolding ◌>>◌
  >>-Safe = record {
    extends = λ b. elim (Bool-cases (is_good (e b).0)) [
      | inl p ↦ rw p (Extends-trans (se.extends b) (sk.extends (e b).1))
      | inr p ↦ rw p (se.extends b)
    ];
  }

  pub unchecked-Safe : Safe (unchecked e k)
  unfolding unchecked
  unchecked-Safe = record { extends = λ b. Extends-trans (se.extends b) (sk.extends (e b).1) }

  pub also-Safe : Safe (also e k)
  unfolding also
  also-Safe = record { extends = λ b. Extends-trans (se.extends b) (sk.extends (e b).1) }

pub when-Safe : (c : Bool) {e : Encoder} → Safe e → Safe (when c e)
unfolding when
when-Safe true se = se
when-Safe false se = done-Safe

module _ {e : Encoder} (se : Safe e) where
  pub exchange-Safe : Safe (encode_with_exchange_buffer e)
  unfolding encode_with_exchange_buffer
  exchange-Safe = record {
    extends = λ b. elim (Bool-cases (is_limits_exceeded (e b).0)) [
      | inl p ↦ rw p (
          Extends-trans (rewind-Extends (se.extends b))
            (Safe.extends (>>-Safe exchange_buffer-Safe se) (rewind b (e b).1)))
      | inr p ↦ rw p (se.extends b)
    ];
  }

  pub encode_binary-Safe : Safe (encode_binary e)
  unfolding encode_binary
  encode_binary-Safe = exchange-Safe

-- For `search`.
pub ruleset safe = (write-Safe, done-Safe, fail-Safe, >>-Safe, unchecked-Safe, also-Safe, when-Safe)
