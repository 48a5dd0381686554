-- ===== src/Stream/Version.antt =====
-- Which server versions a connection accepts: what `WatchStream::check_version` lets pass is what
-- the session stores as its server version.
use memory_archive.Prelude.{◌≡◌, refl, sym, subst, ◌⊎◌, Bool, false, Option, none, some, arith}
use memory_archive.Prelude.Result.{ok, err}
use memory_archive.Text.{Str}
use memory_archive.Compat.{
  Version, version, supported_min, parse, Compat, ceiling, evaluate, refusal, recorded,
}
use memory_archive.Compat.Gates.{InRange, refusal-evaluate, parse-recorded}
use memory_archive.Stream.{
  Channel, normalize_addr, choose_trust, pass_gate, watch_token, subscribed, Transport, CcEndpoint,
  Wire, Attempt, ◌>>=◌, ensure, send, credentials_allowed, check_version, try_connect,
}
use memory_archive.Stream.Connect.{negotiate}
use memory_archive.Stream.Downgrade.{negotiate-Cause}

module _ {A B : Type 0} where
  bind-eq_ok :
      (m : Attempt A) (f : A → Attempt B) {b : B}
      → (m >>= f).1 ≡ ok b
      → (a : A) × (m.1 ≡ ok a) × ((f a).1 ≡ ok b)
  unfolding ◌>>=◌
  bind-eq_ok (sent, ok a) f h = (a, refl, h)
  bind-eq_ok (sent, err e) f h = absurd (ground arith)

module _ {S : Type 0} (wire : Wire S) (cc : CcEndpoint) where
  -- A server version that the gate has no objection to.
  abbrev pub Recordable : Str → Type 0
  Recordable v =
      (parse v ≡ none)
      ⊎ ((w : Version) × (parse v ≡ some w)
          × InRange supported_min w (ceiling (parse cc.max_version)))

  pass_gate-eq_ok :
      (verdict : Compat) (o : Option Str) {v : Str}
      → cc.allow_unsupported ≡ false
      → (pass_gate wire cc verdict o).1 ≡ ok v
      → (o ≡ none) × (recorded verdict ≡ v)
  unfolding pass_gate
  pass_gate-eq_ok verdict none strictly h = (refl, ground arith)
  pass_gate-eq_ok verdict (some message) strictly h = ground arith

  recorded-Recordable :
      (reported : Str)
      → refusal (evaluate reported (parse cc.max_version)) ≡ none
      → Recordable (recorded (evaluate reported (parse cc.max_version)))
  recorded-Recordable reported passed =
      subst
        (λ p.
          (p ≡ none)
          ⊎ ((w : Version) × (p ≡ some w)
              × InRange supported_min w (ceiling (parse cc.max_version))))
        (sym (parse-recorded reported (parse cc.max_version)))
        ((refusal-evaluate reported (parse cc.max_version)).0 passed)

  check_version-Recordable :
      (channel : Channel) (allowed : Bool) {v : Str}
      → cc.allow_unsupported ≡ false
      → (check_version wire cc channel allowed).1 ≡ ok v
      → Recordable v
  unfolding check_version
  check_version-Recordable channel allowed strictly h =
      let (_, _, gated) = bind-eq_ok (send _) _ h in
      let (passed, same) = pass_gate-eq_ok _ _ strictly gated in
      subst Recordable same (recorded-Recordable _ passed)

  try_connect-checked :
      (t : Transport) (s : S) (v : Str)
      → (try_connect wire cc t).1 ≡ ok (s, v)
      → (channel : Channel) × ((check_version wire cc channel (credentials_allowed cc.security t)).1
          ≡ ok v)
  unfolding try_connect
  try_connect-checked t s v h =
      let (_, _, h1) = bind-eq_ok (ensure _ _) _ h in
      let (trust, _, h2) = bind-eq_ok (choose_trust wire cc t) _ h1 in
      let (_, _, h3) = bind-eq_ok (ensure _ _) _ h2 in
      let (_, _, h4) = bind-eq_ok (send _) _ h3 in
      let (_, _, h5) = bind-eq_ok (ensure _ _) _ h4 in
      let channel : Channel = record { uri = normalize_addr cc.addr t; trust = trust } in
      let (version, checked, h6) = bind-eq_ok (check_version wire cc channel _) _ h5 in
      let (token, _, h7) = bind-eq_ok (watch_token wire cc _) _ h6 in
      let (_, _, h8) = bind-eq_ok (send _) _ h7 in
      let (stream, _, h9) = bind-eq_ok (subscribed wire cc _) _ h8 in
      (
        channel,
        subst (λ w. (check_version wire cc channel (credentials_allowed cc.security t)).1 ≡ ok w)
            (ground arith) checked,
      )

  -- Without the operator's override, the server version stored for a session is unreadable, or lies
  -- between `SUPPORTED_MIN` and the ceiling that the configuration sets.
  pub negotiate-Recordable :
      (s : S) (t : Transport) (v : Str)
      → cc.allow_unsupported ≡ false
      → (negotiate wire cc).1 ≡ ok (s, t, v)
      → Recordable v
  negotiate-Recordable s t v strictly h =
      let (channel, checked) =
        try_connect-checked t s v (negotiate-Cause wire cc s t v h).attempt in
      check_version-Recordable channel _ strictly checked
