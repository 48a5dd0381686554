-- ===== src/Stream/Downgrade.antt =====
-- What a connection rests on: which failure came before it, and which server version it accepted.
use memory_archive.Prelude.{◌≡◌, refl, subst, ◌⊎◌, inl, inr, [], ◌∷◌, arith}
use memory_archive.Prelude.Result.{ok, err}
use memory_archive.Text.{Str}
use memory_archive.Stream.{
  CcSecurity, auto, strict, legacy, Transport, tls, plaintext, transport_plan, CcEndpoint,
  TransportError, ConnectFailure, transport, auth, unsupported, Wire, Attempt, fail, try_connect,
}
use memory_archive.Stream.Connect.{is_fatal, Connected, tag, or_next, try_each, negotiate}

module _ {S : Type 0} where
  -- An attempt that connects is the answer; one that fails at the transport leaves it to the rest.
  or_next-eq_ok :
      (t : Transport) (m : Attempt (S × Str)) (rest : ConnectFailure → Attempt (Connected S))
      (s : S) (u : Transport) (v : Str)
      → (or_next (tag t m) rest).1 ≡ ok (s, u, v)
      → ((m.1 ≡ ok (s, v)) × (t ≡ u))
        ⊎ ((e : TransportError) × (m.1 ≡ err (transport e))
            × ((rest (transport e)).1 ≡ ok (s, u, v)))
  unfolding is_fatal
  or_next-eq_ok t (sent, ok (s', v')) rest s u v h = inl (ground arith, ground arith)
  or_next-eq_ok t (sent, err (transport e)) rest s u v h = inr (e, refl, h)
  or_next-eq_ok t (sent, err auth) rest s u v h = absurd (ground arith)
  or_next-eq_ok t (sent, err (unsupported message)) rest s u v h = absurd (ground arith)

module _ {S : Type 0} (wire : Wire S) (cc : CcEndpoint) where
  -- A connection is an attempt that succeeded; in the clear under `auto` it needs a failure of the
  -- TLS attempt at the transport, and under `strict` there is none.
  pub record Cause (security : CcSecurity) (s : S) (t : Transport) (v : Str) : Type 0 where
    pub attempt : (try_connect wire cc t).1 ≡ ok (s, v)
    pub in_clear :
        t ≡ plaintext
        → (security ≡ legacy)
          ⊎ ((security ≡ auto)
              × ((e : TransportError) × ((try_connect wire cc tls).1 ≡ err (transport e))))

  single-Cause :
      (security : CcSecurity) (t : Transport) (last : ConnectFailure) (s : S) (u : Transport)
      (v : Str)
      → (try_each wire cc last (t ∷ [])).1 ≡ ok (s, u, v)
      → ((try_connect wire cc u).1 ≡ ok (s, v)) × (t ≡ u)
  unfolding try_each
  single-Cause security t last s u v h =
      elim (or_next-eq_ok t (try_connect wire cc t) (λ e. fail e) s u v h) [
        | inl (e, same) ↦ (subst (λ w. (try_connect wire cc w).1 ≡ ok (s, v)) same e, same)
        | inr (e, failed, impossible) ↦ absurd (ground arith)
      ]

  plan-Cause :
      (security : CcSecurity) (last : ConnectFailure) (s : S) (t : Transport) (v : Str)
      → (try_each wire cc last (transport_plan security)).1 ≡ ok (s, t, v)
      → Cause security s t v
  unfolding transport_plan try_each
  plan-Cause auto last s t v h =
      elim (or_next-eq_ok tls (try_connect wire cc tls) (λ e. try_each wire cc e (plaintext ∷ [])) s
        t v h) [
          | inl (e, same) ↦ record {
            attempt = subst (λ w. (try_connect wire cc w).1 ≡ ok (s, v)) same e;
            in_clear = λ c. absurd (ground arith);
          }
          | inr (e, failed, next) ↦
              let (attempt, same) = single-Cause auto plaintext (transport e) s t v next in
              record { attempt = attempt; in_clear = λ c. inr (refl, (e, failed)) }
        ]
  plan-Cause strict last s t v h =
      let (attempt, same) = single-Cause strict tls last s t v h in
      record { attempt = attempt; in_clear = λ c. absurd (ground arith) }
  plan-Cause legacy last s t v h =
      let (attempt, same) = single-Cause legacy plaintext last s t v h in
      record { attempt = attempt; in_clear = λ c. inl refl }

  pub negotiate-Cause :
      (s : S) (t : Transport) (v : Str)
      → (negotiate wire cc).1 ≡ ok (s, t, v)
      → Cause cc.security s t v
  unfolding negotiate
  negotiate-Cause s t v h = plan-Cause cc.security _ s t v h

  -- A connection in the clear is one that `legacy` asked for, or one under `auto` after the attempt
  -- over TLS failed at the transport; it never follows refused credentials or an unsupported
  -- version.
  pub negotiate_in_clear :
      (s : S) (v : Str)
      → (negotiate wire cc).1 ≡ ok (s, plaintext, v)
      → (cc.security ≡ legacy)
        ⊎ ((cc.security ≡ auto)
            × ((e : TransportError) × ((try_connect wire cc tls).1 ≡ err (transport e))))
  negotiate_in_clear s v h = (negotiate-Cause s plaintext v h).in_clear refl
