-- ===== src/Registry/Exclusive.antt =====
-- One claim at a time on a session, of ma-core/src/registry/mod.rs and ma-core/src/ipc/mod.rs.
use memory_archive.Prelude.{
  if◌then◌else◌, is_empty, ℕ, ◌≡◌, ◌≢◌, refl, sym, ap, ◌∙◌, inl, inr, Bool, true, false, not, ◌&&◌,
  List,
}
use memory_archive.Prelude.Result.{ok}
use memory_archive.Text.{Str, str_eq, Lacks}
use memory_archive.Registry.Schema.{Chrono}
use memory_archive.Registry.Redis.{Db, Redis}
use memory_archive.Registry.Redis.Reference.{Documented}
use memory_archive.Registry.Effects.{claim_key}
use memory_archive.Registry.Claims.{claim_value, claim_matches, verify_claim_id}
use memory_archive.Registry.Matching.{matches-claim_value}
use memory_archive.Registry.Script.{ScriptReply, claimed_ok, taken, claim_ttl_secs, claim_target}
use memory_archive.Registry.Counted.{limit-ne, taken-ne, Scripted, claim_target-Scripted}
use memory_archive.Registry.Kept.{
  Reach, Holds, set_absent-won, Reach-Holds, claimed_again, verified_same,
}

won_set : (b : Bool) → (if b then claimed_ok else taken) ≡ claimed_ok → b ≡ true
won_set true h = refl
won_set false h = absurd (taken-ne h)

-- A script that wins leaves its value at the key.
claimed_ok-Holds :
    (id value : Str) (db db' : Db)
    → Scripted (claim_key id) value claim_ttl_secs db db' claimed_ok
    → Holds id value db'
claimed_ok-Holds id value db db' (inl (n, e, same)) = absurd (limit-ne n (sym e))
claimed_ok-Holds id value db db' (inr (set, ran, e)) =
    set_absent-won (claim_key id) value claim_ttl_secs db db'
      (ran ∙ ap (λ b. (db', ok b)) (won_set set (sym e)))

module _ (r : Redis) (d : Documented r) (c : Chrono) (up : Str → Str)
    (id annotator claim : Str) where
  -- After an annotator's claim was set by the script of `ClaimSession`, and after any steps that
  -- succeed - claims by the script or by `claim_session`, verifications, refreshes with a time to
  -- live of at least a second and below 2^63 seconds, releases of other sessions' claims,
  -- registrations, updates of the status, the path and the counters, deletions of other sessions,
  -- any single command that writes to another key, and the lapse of any other key - the script
  -- sets no further claim on the session, and the session's claim is verified by the id that was
  -- set, unless it is empty, and by no other id. Claim ids hold no colon.
  pub claim_target-exclusive :
      (max_c : ℕ) (scanned : List Str) (db : Db) {db' now after later : Db}
      → claim_target r id annotator claim max_c scanned db ≡ (db', ok claimed_ok)
      → Reach r c up id db' now
      → (rival candidate : Str) (rival_claim : Str) (rival_max : ℕ) (rival_scanned : List Str)
        {reply : ScriptReply} {valid : Bool}
      → Lacks b':' claim
      → Lacks b':' candidate
      → claim_target r id rival rival_claim rival_max rival_scanned now ≡ (after, ok reply)
      → verify_claim_id r id candidate now ≡ (later, ok valid)
      → (reply ≢ claimed_ok) × (valid ≡ (not (is_empty candidate) && str_eq candidate claim))
  claim_target-exclusive max_c scanned db {db'} {now} {after} {later} ran reach rival candidate
        rival_claim rival_max rival_scanned {reply} {valid} clean clean_candidate again checked =
      let value = claim_value annotator claim in
      let held =
        Reach-Holds r d c up id value
          (claimed_ok-Holds id value db db'
            (claim_target-Scripted r d id annotator claim max_c scanned db db' claimed_ok ran))
          reach in
      (
        claimed_again r d c up id value (claim_value rival rival_claim) claim_ttl_secs now after
            reply held
            (claim_target-Scripted r d id rival rival_claim rival_max rival_scanned now after reply
              again),
        sym (verified_same r d c up id value id candidate valid now later checked).1
            ∙ ap (λ stored. claim_matches stored candidate) held
            ∙ matches-claim_value annotator claim candidate clean clean_candidate,
      )
