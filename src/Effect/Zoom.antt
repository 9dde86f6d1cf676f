-- ===== src/Effect/Zoom.antt =====
-- What a call on a part of the state keeps.
use fresh_stackable_data_pla.Effect.{Outcome, returned, raised, Exec, final, put_back, zoom}
use fresh_stackable_data_pla.Effect.Keeps.{Keeps}
use fresh_stackable_data_pla.Effect.Gives.{Gives, Holds}

module _ {S T A : Type 0} (get : S → T) (set : T → S → S) {P : T → Type 0} {R : S → Type 0}
    (to_part : (s : S) → R s → P (get s))
    (from_part : (t : T) (s : S) → R s → P t → R (set t s)) where
  put_back-Keeps : (o : Outcome T A) (s : S) → R s → P (final o) → R (final (put_back set o s))
  put_back-Keeps (returned a t) s r p = from_part t s r p
  put_back-Keeps (raised e t) s r p = from_part t s r p

  pub zoom-Keeps : {m : Exec T A} → Keeps P m → Keeps R (zoom get set m)
  unfolding zoom
  zoom-Keeps {m} k = record {
    at = λ s r. put_back-Keeps (m (get s)) s r (k.at (get s) (to_part s r));
  }

  put_back-Holds :
      (Q : A → Type 0) (o : Outcome T A) (s : S) → R s → Holds P Q o → Holds R Q (put_back set o s)
  put_back-Holds Q (returned a t) s r (p, q) = (from_part t s r p, q)
  put_back-Holds Q (raised e t) s r p = from_part t s r p

  pub zoom-Gives : {Q : A → Type 0} {m : Exec T A} → Gives P Q m → Gives R Q (zoom get set m)
  unfolding zoom
  zoom-Gives {Q} {m} k = record {
    at = λ s r. put_back-Holds Q (m (get s)) s r (k.at (get s) (to_part s r));
  }
