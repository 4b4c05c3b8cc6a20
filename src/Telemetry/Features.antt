-- ===== src/Telemetry/Features.antt =====
-- Adding and removing features, pushing before the registration, and sending again after a timeout.
use resfit.Prelude.{
  ◌≡◌, refl, ap, ◌∙◌, Bool, false, Option, none, some, List, [], ◌∷◌, ◌++◌, arith, Exec, ok, ◌>>=◌,
  cond_true, cond_false,
}
use resfit.Prelude.Memory.{Bytes}
use resfit.Prelude.Text.{str_eq_self, occurs_in-append}
use resfit.Status.{CoapResponse}
use resfit.State.{Payload, Feature, Client}
use resfit.Telemetry.{
  feature, telemetry_add, telemetry_del, find_feature, remove_feature, find_in_uri, push, push_each,
  push_all, push_found, telemetry_callback,
}

find_feature-append :
    (path : Bytes) (l : List Feature) (cb : Payload)
    → find_feature path l ≡ none
    → find_feature path (l ++ (feature path cb ∷ [])) ≡ some (feature path cb)
unfolding find_feature
find_feature-append path [] cb h = rw (str_eq_self path)
find_feature-append path (p ∷ l) cb h = ground (arith, find_feature-append path l cb)

remove_feature-append :
    (path : Bytes) (l : List Feature) (cb : Payload)
    → find_feature path l ≡ none
    → remove_feature path (l ++ (feature path cb ∷ [])) ≡ l
unfolding find_feature remove_feature
remove_feature-append path [] cb h = rw (str_eq_self path)
remove_feature-append path (p ∷ l) cb h = ground (arith, remove_feature-append path l cb)

-- A feature of a new path that is added is found under its path, with its payload callback and
-- without alarms, and removing it again gives back the client as it was.
pub telemetry_del-telemetry_add :
    (path : Bytes) (cb : Payload) (c : Client)
    → find_feature path c.features ≡ none
    → (find_feature path (telemetry_add (some path) (some cb) c).features ≡ some (feature path cb))
      × (telemetry_del (some path) (telemetry_add (some path) (some cb) c) ≡ c)
unfolding telemetry_add telemetry_del
telemetry_del-telemetry_add path cb c h = (
  find_feature-append path c.features cb h,
  ap (λ l. record c { features = l }) (remove_feature-append path c.features cb h),
)

module _ (payload : Payload → Bool → Client → Exec (Option Bytes)) where
  push_each_unregistered :
      (l : List Feature) (c : Client)
      → c.registration.registered ≡ false
      → push_each payload l c ≡ ok c
  unfolding push_each push
  push_each_unregistered [] c h = refl
  push_each_unregistered (p ∷ l) c h =
      ap (λ m. m >>= push_each payload l) (cond_false _ _ h) ∙ push_each_unregistered l c h

  -- As long as the client is not registered, pushing all features sends nothing and changes
  -- nothing, and the payload callbacks are not called.
  pub push_all_unregistered :
      (c : Client) → c.registration.registered ≡ false → push_all payload c ≡ ok c
  unfolding push_all
  push_all_unregistered c h = push_each_unregistered c.features c h

  -- After a timeout the feature that is sent again is the first one of which the path occurs in the
  -- URI: also if the URI goes on behind it, and the request was that of another feature with a
  -- longer path.
  pub telemetry_callback-prefix :
      (pre post : Bytes) (p : Feature) (l : List Feature) (c : Client)
      → c.features ≡ p ∷ l
      → telemetry_callback payload (pre ++ (p.uri_path ++ post)) CoapResponse.timeout c
        ≡ push payload p false c
  unfolding telemetry_callback find_in_uri push_found
  telemetry_callback-prefix pre post p l c e =
      ap (λ f. push_found payload false (find_in_uri (pre ++ (p.uri_path ++ post)) f) c) e
      ∙ ap (λ o. push_found payload false o c)
          (cond_true _ _ (occurs_in-append p.uri_path pre post))
