-- ===== src/Xmpp/Jid/Compare.antt =====
-- `compare` as an equivalence on valid addresses.
use ambrosia.Prelude.{◌≡◌, Bool, true, false, arith}
use ambrosia.Prelude.Texts.{text_eq_refl, text_eq_sound}
use ambrosia.Xmpp.Jid.{Jid, compare}

-- Two addresses that compare equal compare alike with any third.
pub compare_left :
    (x k j : Jid) (res : Bool) → compare x k res ≡ true → compare x j res ≡ compare k j res
unfolding compare
compare_left x k j true h = ground (arith, text_eq_sound x.full k.full)
compare_left x k j false h = ground (arith, text_eq_sound x.bare k.bare)

pub compare_right :
    (k j x : Jid) (res : Bool) → compare k j res ≡ true → compare x k res ≡ compare x j res
unfolding compare
compare_right k j x true h = ground (arith, text_eq_sound k.full j.full)
compare_right k j x false h = ground (arith, text_eq_sound k.bare j.bare)

pub compare_comm : (a b : Jid) (res : Bool) → compare a b res ≡ true → compare b a res ≡ true
unfolding compare
compare_comm a b true h = ground (arith, text_eq_sound a.full b.full, text_eq_refl a.full)
compare_comm a b false h = ground (arith, text_eq_sound a.bare b.bare, text_eq_refl a.bare)
