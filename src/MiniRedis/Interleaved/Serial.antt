-- ===== src/MiniRedis/Interleaved/Serial.antt =====
-- Interleaved requests have the responses and the effect of requests one after the other.
use mathlib.Core.Path.{subst}
use tiny_coro_build_your_own.Common.{
  ℕ, ◌≡◌, ◌≢◌, ◌⊎◌, inl, inr, refl, sym, ap, ◌∙◌, Option, ◌∷◌, arith, update, ℕ_discrete,
}
use tiny_coro_build_your_own.Common.Text.{Bytes}
use tiny_coro_build_your_own.Scheduler.{Scheduler}
use tiny_coro_build_your_own.AsyncMutex.System
use tiny_coro_build_your_own.AsyncMutex.System.{Pc, outside, trying, holding}
use tiny_coro_build_your_own.AsyncMutex.Exclusion
use tiny_coro_build_your_own.AsyncMutex.Exclusion.{Owned, mutual_exclusion}
use tiny_coro_build_your_own.MiniRedis.{Store}
use tiny_coro_build_your_own.MiniRedis.Interleaved.Alone.{serve, replay, Answered, complete-search}
use tiny_coro_build_your_own.MiniRedis.Interleaved.{
  Request, search, complete, Phase, fresh, found, finished, Clients, Competes, Step, competes,
  searches, completes, leaves, Reach, start, next,
}

abbrev Busy : Phase → Type 0
Busy fresh = ⊥
Busy _ = Unit

abbrev Found : Phase → Type 0
Found (found r entry) = Unit
Found _ = ⊥

-- What a connection has found is what the search gives on the map as the finished requests left it.
abbrev Searched : Phase → Store → Store → Type 0
Searched (found r entry) db now = search r db ≡ (now, entry)
Searched _ db now = Unit

record Inv (sched : Scheduler) (db : Store) (s : Clients) : Type 0 where
  locked : System.Reach sched s.lock
  busy : (i : ℕ) → Busy (s.phase i) → s.lock.pc i ≡ holding
  searched : (i : ℕ) → Searched (s.phase i) (replay s.history db) s.store
  quiet : ((i : ℕ) → ¬ Found (s.phase i)) → s.store ≡ replay s.history db
  answered : Answered s.history db

update_all :
    (P : ℕ → Phase → Type 0) (f : ℕ → Phase) (i : ℕ) (p : Phase)
    → P i p
    → ((j : ℕ) → j ≢ i → P j (f j))
    → (j : ℕ) → P j (update f i p j)
update_all P f i p here others j = elim (ℕ_discrete j i) [
  | yes e ↦
      let at : update f i p j ≡ p = ground (arith, e) in
      subst (P j) (sym at) (subst (λ k. P k p) (sym e) here)
  | no ne ↦
      let same_phase : update f i p j ≡ f j = ground (arith, ne) in
      subst (P j) (sym same_phase) (others j ne)
]

not-Busy : (p : Phase) → ¬ Busy p → p ≡ fresh
not-Busy fresh n = refl
not-Busy finished n = absurd (n tt)
not-Busy (found r entry) n = absurd (n tt)

-- While a connection has the lock, every other one is outside the scope of its guard.
others_fresh :
    {sched : Scheduler} {db : Store} {s : Clients}
    → Inv sched db s
    → (i : ℕ) → s.lock.pc i ≡ holding
    → (j : ℕ) → j ≢ i
    → s.phase j ≡ fresh
others_fresh {s} v i at j ne =
    not-Busy (s.phase j) (λ b. ne (mutual_exclusion v.locked j i (v.busy j b) at))

Competes-holding :
    {l l' : System.System} (st : System.Step l l')
    → Competes st
    → (j : ℕ) → l.pc j ≡ holding
    → l'.pc j ≡ holding
Competes-holding (System.Step.readies i at) c j h = ground (arith, h, at)
Competes-holding (System.Step.suspends i at) c j h = ground (arith, h, at)
Competes-holding (System.Step.unlocks i at) c j h = absurd c

Busy-Found : (p : Phase) → Found p → Busy p
Busy-Found fresh h = absurd h
Busy-Found finished h = absurd h
Busy-Found (found r entry) h = tt

searches-Inv :
    {sched : Scheduler} {db : Store} {s : Clients}
    → Inv sched db s
    → (i : ℕ) (r : Request) → s.lock.pc i ≡ holding
    → s.phase i ≡ fresh
    → Inv sched db (record s {
      store = (search r s.store).0;
      phase = update s.phase i (found r (search r s.store).1);
    })
searches-Inv {db} {s} v i r at here =
    let none_found : (j : ℕ) → ¬ Found (s.phase j) = λ j. elim (ℕ_discrete j i) [
      | yes e ↦ subst (λ p. ¬ Found p) (sym (ap s.phase e ∙ here)) (λ h. h)
      | no ne ↦ subst (λ p. ¬ Found p) (sym (others_fresh v i at j ne)) (λ h. h)
    ] in
    let now = (search r s.store).0 in
    let p : Phase = found r (search r s.store).1 in
    record {
      locked = v.locked;
      busy =
          update_all (λ j q. Busy q → s.lock.pc j ≡ holding) s.phase i p (λ b. at)
            (λ j ne. v.busy j);
      searched =
          update_all (λ j q. Searched q (replay s.history db) now) s.phase i p
            (ap (search r) (sym (v.quiet none_found)))
            (λ j ne.
              subst (λ q. Searched q (replay s.history db) now) (sym (others_fresh v i at j ne))
                tt);
      quiet = λ n. absurd (n i (subst Found (sym (update_here s.phase i p)) tt));
      answered = v.answered;
    }
  where
    update_here : (f : ℕ → Phase) (i : ℕ) (p : Phase) → update f i p i ≡ p
    update_here f i p = ground arith

completes-Inv :
    {sched : Scheduler} {db : Store} {s : Clients}
    → Inv sched db s
    → (i : ℕ) (r : Request) (entry : Option Bytes) → s.phase i ≡ found r entry
    → Inv sched db (record s {
      store = (complete r entry s.store).0;
      phase = update s.phase i finished;
      history = (r, (complete r entry s.store).1) ∷ s.history;
    })
completes-Inv {db} {s} v i r entry here =
    let at = v.busy i (subst Busy (sym here) tt) in
    let before = replay s.history db in
    let searched : search r before ≡ (s.store, entry) =
      subst (λ q. Searched q before s.store) here (v.searched i) in
    let done : complete r entry s.store ≡ ((serve r before).store, (serve r before).reply) =
      ap (λ (x : Store × Option Bytes). complete r x.1 x.0) (sym searched)
      ∙ complete-search r before in
    let now = (complete r entry s.store).0 in
    record {
      locked = v.locked;
      busy =
          update_all (λ j q. Busy q → s.lock.pc j ≡ holding) s.phase i finished (λ b. at)
            (λ j ne. v.busy j);
      searched =
          update_all (λ j q. Searched q (serve r before).store now) s.phase i finished tt
            (λ j ne.
              subst (λ q. Searched q (serve r before).store now) (sym (others_fresh v i at j ne))
                tt);
      quiet = λ n. ap (λ (x : Store × Bytes). x.0) done;
      answered = (ap (λ (x : Store × Bytes). x.1) done, v.answered);
    }

leaves-Inv :
    {sched : Scheduler} {db : Store} {s : Clients} {l' : System.System}
    → Inv sched db s
    → (i : ℕ) → s.lock.pc i ≡ holding
    → s.phase i ≡ finished
    → System.Step s.lock l'
    → Inv sched db (record s { lock = l'; phase = update s.phase i fresh })
leaves-Inv {db} {s} {l'} v i at here st = record {
  locked = System.Reach.next v.locked st;
  busy =
      update_all (λ j q. Busy q → l'.pc j ≡ holding) s.phase i fresh (λ b. absurd b)
        (λ j ne.
          subst (λ q. Busy q → l'.pc j ≡ holding) (sym (others_fresh v i at j ne)) (λ b. absurd b));
  searched =
      update_all (λ j q. Searched q (replay s.history db) s.store) s.phase i fresh tt
        (λ j ne. v.searched j);
  quiet = λ n. v.quiet (λ j. elim (ℕ_discrete j i) [
    | yes e ↦ subst (λ p. ¬ Found p) (sym (ap s.phase e ∙ here)) (λ h. h)
    | no ne ↦ subst (λ p. ¬ Found p) (sym (others_fresh v i at j ne)) (λ h. h)
  ]);
  answered = v.answered;
}

Step-Inv :
    {sched : Scheduler} {db : Store} {s s' : Clients} → Step s s' → Inv sched db s → Inv sched db s'
Step-Inv (competes st c) v = record {
  locked = System.Reach.next v.locked st;
  busy = λ i b. Competes-holding st c i (v.busy i b);
  searched = v.searched;
  quiet = v.quiet;
  answered = v.answered;
}
Step-Inv (searches i r at here) v = searches-Inv v i r at here
Step-Inv (completes i r entry here) v = completes-Inv v i r entry here
Step-Inv (leaves i at here) v = leaves-Inv v i at here (System.Step.unlocks i at)

Reach-Inv : {sched : Scheduler} {db : Store} {s : Clients} → Reach sched db s → Inv sched db s
Reach-Inv start = record {
  locked = System.Reach.start;
  busy = λ i b. absurd b;
  searched = λ i. tt;
  quiet = λ n. refl;
  answered = tt;
}
Reach-Inv (next r st) = Step-Inv st (Reach-Inv r)

-- A connection stands between its two accesses: the finished requests left `db`, on which it has searched.
abbrev pub Between : Store → Clients → Type 0
Between db s =
    (i : ℕ) × (r : Request) × (entry : Option Bytes) × (s.phase i ≡ found r entry)
    × (search r db ≡ (s.store, entry))

settled :
    {sched : Scheduler} {db : Store} {s : Clients}
    → Inv sched db s
    → Owned s.lock.mutex s.lock.pc
    → Between (replay s.history db) s ⊎ (s.store ≡ replay s.history db)
settled {db} {s} v (inl (free, none_waits, nobody)) =
    inr (v.quiet (λ i h. nobody i (v.busy i (Busy-Found (s.phase i) h))))
settled {db} {s} v (inr (taken, (o, holds, only))) = by_phase (s.phase o) refl
  where
    unfound : (p : Phase) → ¬ Found p → s.phase o ≡ p → (i : ℕ) → ¬ Found (s.phase i)
    unfound p n e i h =
        n (subst Found (ap s.phase (only i (v.busy i (Busy-Found (s.phase i) h))) ∙ e) h)

    by_phase :
        (p : Phase)
        → s.phase o ≡ p
        → Between (replay s.history db) s ⊎ (s.store ≡ replay s.history db)
    by_phase fresh e = inr (v.quiet (unfound fresh (λ h. h) e))
    by_phase finished e = inr (v.quiet (unfound finished (λ h. h) e))
    by_phase (found r entry) e =
        inl (o, r, entry, e, subst (λ p. Searched p (replay s.history db) s.store) e (v.searched o))

-- In every reachable state of any number of connections, each response is the one that its request gets if the
-- finished requests run one after the other, in the order of their second accesses; and the map is the one that they
-- leave then, or that one after the search of a connection that stands between its two accesses.
pub serializable :
    {sched : Scheduler} {db : Store} {s : Clients}
    → Reach sched db s
    → Answered s.history db × (Between (replay s.history db) s ⊎ (s.store ≡ replay s.history db))
serializable r = let v = Reach-Inv r in (v.answered, settled v (Exclusion.Reach-Inv v.locked).owned)
