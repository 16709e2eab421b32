-- ===== src/Web/Js/Laws.antt =====
-- How a bind of actions goes on after an action that returned.
use peer_wan.Prelude.{◌≡◌, refl}
use peer_wan.Web.Js.{returned, Page, Act, ◌>>=◌}

pub bind-returned :
    {S A B : Type 0} (m : Act S A) (f : A → Act S B) (p : Page S) (a : A)
    → (m p).0 ≡ returned a
    → (m >>= f) p ≡ f a (m p).1
bind-returned m f p a h = rw h refl
