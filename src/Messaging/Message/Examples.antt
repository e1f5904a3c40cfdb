-- ===== src/Messaging/Message/Examples.antt =====
-- Concrete runs of Message.h.
use epic_1bit2qbit.Prelude.{◌≡◌, refl, true, false}
use epic_1bit2qbit.Prelude.Int.{pos}
use epic_1bit2qbit.Messaging.Message.{is_editable}

within : is_editable (pos 1000) (pos 600999) ≡ true
unfolding is_editable
within = refl

expired : is_editable (pos 1000) (pos 601000) ≡ false
unfolding is_editable
expired = refl

from_the_future : is_editable (pos 601000) (pos 1000) ≡ false
unfolding is_editable
from_the_future = refl
