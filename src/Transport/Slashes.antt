-- ===== src/Transport/Slashes.antt =====
-- The URLs of requests where the options give the API with a slash at its end.
use Prim.Native.Char.{Char}
use Prim.Native.String.{◌++◌ as ◌<>◌}
use statsig_go_sdk.Prelude.{
  String, ◌≡◌, refl, ◌∙◌, sym, Bool, false, ◌==◌, eq_iff, eq_refl, inl, inr, Bool-cases,
}
use text.Mathlib.TextLemmas.{
  nil-append, cons-append, cons≢nil, append_cancel_right, append-eq-nil_iff, append_assoc,
}
use statsig_go_sdk.Prelude.Int.{ℤ}
use statsig_go_sdk.Runtime.{Runtime}
use statsig_go_sdk.Transport.Requests.{
  trim_suffix, default_string, default_endpoint, new_transport, report_url, new_request,
}

-- A text is not empty before a suffix that it equals.
longer : (c : Char) (s t : String) → (String.◌∷◌ c (s <> t) == t) ≡ false
longer c s t = elim (Bool-cases (String.◌∷◌ c (s <> t) == t)) [
  | inl same ↦ absurd (
      cons≢nil (
        append_cancel_right (String.◌∷◌ c s) "" t
          (cons-append c s t ∙ (eq_iff (String.◌∷◌ c (s <> t)) t).0 same ∙ sym (nil-append t))))
  | inr other ↦ other
]

-- A suffix that was added is taken away.
pub trim_suffix-append : (s t : String) → trim_suffix (s <> t) t ≡ s
unfolding trim_suffix
trim_suffix-append String.[] String.[] = refl
trim_suffix-append String.[] (String.◌∷◌ d t) =
    rw (nil-append (String.◌∷◌ d t), eq_refl (String.◌∷◌ d t)) refl
trim_suffix-append (String.◌∷◌ c s) t =
    rw (cons-append c s t, longer c s t, trim_suffix-append s t) refl

given : (s d : String) → default_string (s <> "/") d ≡ s <> "/"
given s d = elim (Bool-cases (s <> "/" == "")) [
  | inl empty ↦ absurd (cons≢nil ((append-eq-nil_iff.0 ((eq_iff (s <> "/") "").0 empty)).1))
  | inr other ↦ rw other refl
]

-- If the options give the API with a slash at its end, the requests of the transport go to their
-- endpoint under the API without it, and the reports of exceptions to a URL with two slashes.
pub new_request-slash :
    (r : Runtime) (secret api : String) (local_mode : Bool) (session_id go_version : String)
    (endpoint body : String) (now : ℤ)
    → let t = new_transport secret (api <> "/") local_mode session_id go_version in
      ((new_request r t endpoint body now).url ≡ api <> endpoint)
      × (report_url (api <> "/") ≡ api <> "//sdk_exception")
unfolding new_transport new_request
new_request-slash r secret api local_mode session_id go_version endpoint body now = (
  rw (given api default_endpoint, trim_suffix-append api "/") refl,
  rw (given api default_endpoint, append_assoc api "/" "/sdk_exception") refl,
)
