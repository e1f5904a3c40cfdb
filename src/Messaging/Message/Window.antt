-- ===== src/Messaging/Message/Window.antt =====
-- The edit window of Message.h, and the enum's conversions.
use epic_1bit2qbit.Prelude.{ℕ, ◌+◌, ◌<◌, ◌≡◌, refl, true, false, ◌↔◌, arith}
use epic_1bit2qbit.Prelude.Int.{ℤ, pos, pos_part, neg_part, ◌≤ℤ◌}
use epic_1bit2qbit.Messaging.Message.{to_int, of_int, is_editable, edit_window_ms}

-- A message can be edited exactly from its timestamp on, up to but not including ten minutes
-- later: a timestamp in the future is never editable.
pub is_editable_iff :
    (sent now : ℤ)
    → (is_editable sent now ≡ true) ↔ (
        (sent ≤ℤ now)
        × (pos_part now + neg_part sent < pos_part sent + neg_part now + edit_window_ms))
unfolding is_editable
is_editable_iff sent now = (λ h. ground arith, λ h. ground arith)

-- Once the window has closed it stays closed.
pub is_editable-closed :
    (sent now later : ℤ)
    → sent ≤ℤ now
    → is_editable sent now ≡ false
    → now ≤ℤ later
    → is_editable sent later ≡ false
unfolding is_editable
is_editable-closed sent now later order closed after = ground arith

-- Reading back the int of an enumerator, or of an int that names none, loses nothing.
pub to_int-of_int : (n : ℤ) → to_int (of_int n) ≡ n
unfolding to_int of_int
to_int-of_int (pos ℕ.zero) = refl
to_int-of_int (pos (ℕ.suc ℕ.zero)) = refl
to_int-of_int (pos (ℕ.suc (ℕ.suc ℕ.zero))) = refl
to_int-of_int (pos (ℕ.suc (ℕ.suc (ℕ.suc ℕ.zero)))) = refl
to_int-of_int (pos (ℕ.suc (ℕ.suc (ℕ.suc (ℕ.suc ℕ.zero))))) = refl
to_int-of_int (pos (ℕ.suc (ℕ.suc (ℕ.suc (ℕ.suc (ℕ.suc ℕ.zero)))))) = refl
to_int-of_int (pos (ℕ.suc (ℕ.suc (ℕ.suc (ℕ.suc (ℕ.suc (ℕ.suc ℕ.zero))))))) = refl
to_int-of_int (pos (ℕ.suc (ℕ.suc (ℕ.suc (ℕ.suc (ℕ.suc (ℕ.suc (ℕ.suc ℕ.zero)))))))) = refl
to_int-of_int n = refl
