-- ===== src/Agent/ConfigMaps/Laws.antt =====
-- What a write of the status ends in, and which entries it leaves.
use stoker_operator.Prelude.{
  ℕ, zero, suc, ◌+◌, String, ◌≡◌, ◌≢◌, refl, none, some, ◌<>◌, arith, string_eq,
}
use stoker_operator.Prelude.Dict.{lookup, lookup-insert}
use stoker_operator.Prelude.Outcome.{Outcome, done, failed}
use stoker_operator.Controller.Discovery.{GatewayStatus}
use stoker_operator.Controller.Metadata.{Stored}
use stoker_operator.Agent.ConfigMaps.{
  Fetched, found, absent, forbidden, get_failed, Written, stored, already_exists, conflict,
  write_failed, StatusServer, Outgoing, after_create, after_update, new_status_map, with_entry,
  write_attempts, write_status_config_map,
}

-- A write in the attempt `j` was stored: into the ConfigMap that the same attempt read, or into a new
-- one where it found none.
pub data StoredAt (s : StatusServer) (cr_name gateway_name json : String) (j : ℕ) (cm : Stored)
    : Type 0 where
  updated :
      (old : Stored)
      → s.get j ≡ found old
      → s.update j (with_entry gateway_name json old) ≡ stored
      → cm ≡ with_entry gateway_name json old
      → StoredAt s cr_name gateway_name json j cm
  created :
      s.get j ≡ absent
      → s.create j (new_status_map cr_name gateway_name json) ≡ stored
      → cm ≡ new_status_map cr_name gateway_name json
      → StoredAt s cr_name gateway_name json j cm

-- An attempt that lost a race, after which the code tries again.
pub data LostAt (s : StatusServer) (cr_name gateway_name json : String) (j : ℕ) : Type 0 where
  overtaken :
      (old : Stored)
      → s.get j ≡ found old
      → s.update j (with_entry gateway_name json old) ≡ conflict
      → LostAt s cr_name gateway_name json j
  preceded :
      s.get j ≡ absent
      → s.create j (new_status_map cr_name gateway_name json) ≡ already_exists
      → LostAt s cr_name gateway_name json j

-- An attempt whose answer the code reports as an error.
pub data RefusedAt (s : StatusServer) (cr_name gateway_name json : String) (j : ℕ) : Type 0 where
  unread :
      s.get j ≢ absent
      → ((old : Stored) → s.get j ≢ found old)
      → RefusedAt s cr_name gateway_name json j
  not_updated :
      (old : Stored)
      → s.get j ≡ found old
      → s.update j (with_entry gateway_name json old) ≢ stored
      → s.update j (with_entry gateway_name json old) ≢ conflict
      → RefusedAt s cr_name gateway_name json j
  not_created :
      s.get j ≡ absent
      → s.create j (new_status_map cr_name gateway_name json) ≢ stored
      → s.create j (new_status_map cr_name gateway_name json) ≢ already_exists
      → RefusedAt s cr_name gateway_name json j

-- The ways in which the attempts from `i` on can end.
pub data Ends (s : StatusServer) (cr_name gateway_name json : String)
    : ℕ → ℕ → Outgoing → Type 0 where
  stores :
      {i n : ℕ} (cm : Stored)
      → StoredAt s cr_name gateway_name json i cm
      → Ends s cr_name gateway_name json i (suc n) (some cm, done tt)
  fails :
      {i n : ℕ} (e : String)
      → RefusedAt s cr_name gateway_name json i
      → Ends s cr_name gateway_name json i (suc n) (none, failed e)
  retries :
      {i n : ℕ} {o : Outgoing}
      → LostAt s cr_name gateway_name json i
      → Ends s cr_name gateway_name json (i + 1) n o
      → Ends s cr_name gateway_name json i (suc n) o
  gives_up :
      {i : ℕ}
      → Ends s cr_name gateway_name json i 0 (none, failed "failed to write status after 3 retries")

module _ (s : StatusServer) (cr_name gateway_name json : String) where
  abbrev run : ℕ → ℕ → Outgoing
  run i n = write_attempts s cr_name gateway_name json i n

  after_update-Ends :
      (i n : ℕ) (old : Stored) (w : Written)
      → s.get i ≡ found old
      → s.update i (with_entry gateway_name json old) ≡ w
      → Ends s cr_name gateway_name json (i + 1) n (run (i + 1) n)
      → Ends s cr_name gateway_name json i
          (suc n)
          (after_update (with_entry gateway_name json old) (run (i + 1) n) w)
  unfolding after_update
  after_update-Ends i n old stored g u later = stores _ (updated old g u refl)
  after_update-Ends i n old conflict g u later = retries (overtaken old g u) later
  after_update-Ends i n old already_exists g u later =
      fails _ (not_updated old g (λ p. cc) (λ p. cc))
  after_update-Ends i n old (write_failed e) g u later =
      fails _ (not_updated old g (λ p. cc) (λ p. cc))

  after_create-Ends :
      (i n : ℕ) (w : Written)
      → s.get i ≡ absent
      → s.create i (new_status_map cr_name gateway_name json) ≡ w
      → Ends s cr_name gateway_name json (i + 1) n (run (i + 1) n)
      → Ends s cr_name gateway_name json i
          (suc n)
          (after_create (new_status_map cr_name gateway_name json) (run (i + 1) n) w)
  unfolding after_create
  after_create-Ends i n stored g u later = stores _ (created g u refl)
  after_create-Ends i n already_exists g u later = retries (preceded g u) later
  after_create-Ends i n conflict g u later = fails _ (not_created g (λ p. cc) (λ p. cc))
  after_create-Ends i n (write_failed e) g u later = fails _ (not_created g (λ p. cc) (λ p. cc))

  abbrev on_answer : ℕ → ℕ → Fetched → Outgoing
  on_answer i n (forbidden e) =
      (none, failed ("writing status ConfigMap (permission denied): " <> e))
  on_answer i n absent =
      let cm = new_status_map cr_name gateway_name json in
      after_create cm (run (i + 1) n) (s.create i cm)
  on_answer i n (get_failed e) = (none, failed ("getting status ConfigMap: " <> e))
  on_answer i n (found old) =
      let cm = with_entry gateway_name json old in after_update cm (run (i + 1) n) (s.update i cm)

  on_answer-Ends :
      (i n : ℕ) (f : Fetched)
      → s.get i ≡ f
      → Ends s cr_name gateway_name json (i + 1) n (run (i + 1) n)
      → Ends s cr_name gateway_name json i (suc n) (on_answer i n f)
  on_answer-Ends i n (forbidden e) g later = fails _ (unread (λ p. cc) (λ old p. cc))
  on_answer-Ends i n absent g later = after_create-Ends i n _ g refl later
  on_answer-Ends i n (get_failed e) g later = fails _ (unread (λ p. cc) (λ old p. cc))
  on_answer-Ends i n (found old) g later = after_update-Ends i n old _ g refl later

  write_attempts-Ends : (i n : ℕ) → Ends s cr_name gateway_name json i n (run i n)
  unfolding write_attempts
  write_attempts-Ends i zero = gives_up
  write_attempts-Ends i (suc n) = on_answer-Ends i n (s.get i) refl (write_attempts-Ends (i + 1) n)

-- With a status that can be encoded, a write ends after at most three attempts: an attempt that lost a
-- race to another writer is followed by the next, one that the server refused ends in an error with
-- nothing stored, and one whose write was stored ends without an error, the stored ConfigMap being what
-- that same attempt read with this gateway's entry replaced, or a new one. After three lost races
-- nothing is stored, and there is an error.
pub write_status_config_map-Ends :
    (marshal : GatewayStatus → Outcome String) (s : StatusServer) (cr_name gateway_name : String)
    (i : ℕ) (status : GatewayStatus) (json : String)
    → marshal status ≡ done json
    → Ends s cr_name gateway_name json i 3
        (write_status_config_map marshal s cr_name gateway_name i status)
unfolding write_status_config_map
write_status_config_map-Ends marshal s cr_name gateway_name i status json e =
    rw e (write_attempts-Ends s cr_name gateway_name json i 3)

pub stored_of_Ends :
    (s : StatusServer) (cr_name gateway_name json : String) (i n : ℕ) (o : Outgoing) (cm : Stored)
    → Ends s cr_name gateway_name json i n o
    → o ≡ (some cm, done tt)
    → (j : ℕ) × StoredAt s cr_name gateway_name json j cm
stored_of_Ends s cr_name gateway_name json i n o cm (stores cm' at) e =
    let same : cm' ≡ cm = cc in (i, rw (← same) at)
stored_of_Ends s cr_name gateway_name json i n o cm (fails x r) e = absurd (cc)
stored_of_Ends s cr_name gateway_name json i n o cm (retries l r) e =
    stored_of_Ends s cr_name gateway_name json _ _ o cm r e
stored_of_Ends s cr_name gateway_name json i n o cm gives_up e = absurd (cc)

-- What was stored holds the status under the gateway's name.
pub lookup_of_StoredAt :
    (s : StatusServer) (cr_name gateway_name json : String) (j : ℕ) (cm : Stored)
    → StoredAt s cr_name gateway_name json j cm
    → lookup gateway_name cm.values ≡ some json
unfolding with_entry new_status_map lookup
lookup_of_StoredAt s cr_name gateway_name json j cm (updated old g u e) =
    rw (e, lookup-insert) (ground arith)
lookup_of_StoredAt s cr_name gateway_name json j cm (created g u e) = rw e (ground arith)
