-- ===== src/Gui/ScanController/History.antt =====
-- The events of the scans so far, and what they are at each place of the worker.
use service_port_scanner.Main.{Libs, Task, task_result, task_error, annotate}
use service_port_scanner.Gui.ScanController.{
  Posted, result_ready, progress_changed, scan_finished, Signal, forwarded, scan_error, Worker,
  no_worker, spawning, collecting, counting, stopping, unwinding, closing, releasing, exited,
  Settings, cdn_provider, Turn, Controller, emit, post, deliver_next, deliver,
}
use service_port_scanner.Common.{
  ℕ, suc, ◌+◌, ◌≤◌, ◌≡◌, refl, sym, ◌∙◌, ap, Bool, true, false, Bytes, Option, none, some,
  if◌then◌else◌, List, [], ◌∷◌, ◌++◌, length, append-nil, append_assoc,
}

module _ (libs : Libs) where
  open libs use {fl}

  -- The events of the bridge among what was emitted.
  abbrev pub bridged : List (Signal libs) → List (Posted libs)
  bridged [] = []
  bridged (forwarded e ∷ ss) = e ∷ bridged ss
  bridged (scan_error what ∷ ss) = bridged ss

  -- All events of the bridge in the order they are posted: those delivered and those that wait.
  unfoldable pub history : Controller libs → List (Posted libs)
  history c = bridged c.emitted ++ c.queue

  -- The scans that were started, the last one first: the target and what the futures gave so far.
  abbrev pub Log : Type 0
  Log = List (Bytes × List (Task libs))

  -- The event of what a future gives: the result with its annotations, or none for an exception.
  abbrev pub posted : Settings libs → Bytes → Task libs → List (Posted libs)
  posted s target task_error = []
  posted s target (task_result r) =
      result_ready (annotate libs (cdn_provider libs s target) s.epss r) ∷ []

  -- At most one future, with the event of what it gave.
  pub data Last (s : Settings libs) (target : Bytes)
      : List (Task libs) → List (Posted libs) → Type 0 where
    no_task : Last s target [] []
    one_task : (t : Task libs) → Last s target (t ∷ []) (posted s target t)

  -- The events of a scan up to `done` of `total`: for each future that was read the result it gave,
  -- unless it threw, and the progress behind it.
  pub data Progressed (s : Settings libs) (target : Bytes) (total : ℕ)
      : ℕ → List (Task libs) → List (Posted libs) → Type 0 where
    nothing_done : Progressed s target total 0 [] []
    one_done :
        {done : ℕ} {tasks : List (Task libs)} {events : List (Posted libs)}
        → Progressed s target total done tasks events
        → (t : Task libs) → done + 1 ≤ total
        → Progressed s target total
            (done + 1)
            (tasks ++ t ∷ [])
            (events ++ posted s target t ++ progress_changed (done + 1) total ∷ [])

  -- The events of the scans of a log, one after the other, each ended by its `scan_finished`; before
  -- it stands what the last future gave, where an exception cuts off its progress.
  pub data Scans (s : Settings libs) : Log → List (Posted libs) → Type 0 where
    no_scans : Scans s [] []
    next_scan :
        {total done : ℕ} {target : Bytes} {tasks last : List (Task libs)} {log : Log}
        {old events result : List (Posted libs)}
        → Scans s log old
        → Progressed s target total done tasks events
        → Last s target last result
        → Scans s ((target, tasks ++ last) ∷ log) (old ++ events ++ result ++ scan_finished ∷ [])

  -- The events of the scans of a log of which the last is at `done` of `total`, with `rest` behind.
  pub record Open (s : Settings libs) (log : Log) (target : Bytes) (total done : ℕ)
      (last : List (Task libs)) (rest h : List (Posted libs)) : Type 0 where
    pub scans_before : Log
    pub tasks : List (Task libs)
    pub counted : log ≡ (target, tasks ++ last) ∷ scans_before
    pub old : List (Posted libs)
    pub events : List (Posted libs)
    pub ended : Scans s scans_before old
    pub progressed : Progressed s target total done tasks events
    pub split : h ≡ old ++ events ++ rest

  -- The last scan, behind its last progress.
  abbrev pub Ending : Settings libs → Log → List (Posted libs) → Type 0
  Ending s log h =
      (target : Bytes) × (total : ℕ) × (done : ℕ) × (last : List (Task libs)) × (result : List
        (Posted libs))
      × Last s target last result
      × Open s log target total done last result h

  -- What holds at each place of the worker behind the scans of the log: it runs exactly from the
  -- start of a scan to the end, and the events are those of the scans so far.
  unfoldable pub SoundAt : Settings libs → Log → Worker libs → Bool → List (Posted libs) → Type 0
  SoundAt s log no_worker running h = (running ≡ false) × Scans s log h
  SoundAt s log exited running h = (running ≡ false) × Scans s log h
  SoundAt s log releasing running h = (running ≡ true) × Scans s log h
  SoundAt s log (spawning target ps ls) running h =
      (running ≡ true) × ((before : Log) × (log ≡ (target, []) ∷ before) × Scans s before h)
  SoundAt s log (collecting target ls done total) running h =
      (running ≡ true) × (done + length ls ≡ total) × Open s log target total done [] [] h
  SoundAt s log (counting target ls done total) running h =
      (running ≡ true)
      × (done + suc (length ls) ≡ total)
      × ((t : Task libs) × Open s log target total done (t ∷ []) (posted s target t) h)
  SoundAt s log stopping running h = (running ≡ true) × Ending s log h
  SoundAt s log (unwinding what) running h = (running ≡ true) × Ending s log h
  SoundAt s log closing running h = (running ≡ true) × Ending s log h

  unfoldable pub Sound : Log → Controller libs → Type 0
  unfolding SoundAt
  Sound log c = SoundAt c.settings log c.worker c.running (history c)

  bridged-append : (ss ts : List (Signal libs)) → bridged (ss ++ ts) ≡ bridged ss ++ bridged ts
  bridged-append [] ts = refl
  bridged-append (forwarded e ∷ ss) ts = ap (◌∷◌ e) (bridged-append ss ts)
  bridged-append (scan_error what ∷ ss) ts = bridged-append ss ts

  pub history-post :
      (e : Posted libs) (c : Controller libs) → history (post libs e c) ≡ history c ++ e ∷ []
  unfolding history
  history-post e c = sym (append_assoc (bridged c.emitted) c.queue (e ∷ []))

  pub history-error :
      (what : Bytes) (c : Controller libs) → history (emit libs (scan_error what) c) ≡ history c
  unfolding history
  history-error what c =
      ap (λ l. l ++ c.queue)
        (bridged-append c.emitted (scan_error what ∷ []) ∙ append-nil (bridged c.emitted))

  history-deliver_next :
      (q : List (Posted libs)) (c : Controller libs)
      → c.queue ≡ q
      → history (deliver_next libs q c) ≡ history c
  unfolding history
  history-deliver_next [] c h = refl
  history-deliver_next (e ∷ q) c h =
      rw (h, bridged-append c.emitted (forwarded e ∷ []))
        (append_assoc (bridged c.emitted) (e ∷ []) q)

  pub history-deliver : (c : Controller libs) → history (deliver libs c) ≡ history c
  unfolding deliver
  history-deliver c = history-deliver_next c.queue c refl

  regroup : (xs ys zs ws : List (Posted libs)) → xs ++ ys ++ zs ++ ws ≡ xs ++ (ys ++ zs ++ ws)
  regroup xs ys zs ws = ap (λ l. l ++ ws) (append_assoc xs ys zs) ∙ append_assoc xs (ys ++ zs) ws

  -- A scan that ends, and one that is started.
  pub Open-finish :
      {s : Settings libs} {log : Log} {target : Bytes} {total done : ℕ} {last : List (Task libs)}
      {result h : List (Posted libs)}
      → Last s target last result
      → Open s log target total done last result h
      → Scans s log (h ++ scan_finished ∷ [])
  Open-finish l o = rw (o.counted, o.split) (next_scan o.ended o.progressed l)

  pub Scans-start :
      {s : Settings libs} {log before : Log} {target : Bytes} {h : List (Posted libs)} (total : ℕ)
      → log ≡ (target, []) ∷ before
      → Scans s before h
      → Open s log target total 0 [] [] h
  Scans-start {before} {h} total e d = record {
    scans_before = before;
    tasks = [];
    counted = e;
    old = h;
    events = [];
    ended = d;
    progressed = nothing_done;
    split = sym (append-nil (h ++ []) ∙ append-nil h);
  }

  -- What a future gives is added to the last scan.
  unfoldable pub log_task : Option (Task libs) → Log → Log
  log_task none log = log
  log_task (some t) [] = []
  log_task (some t) ((target, tasks) ∷ log) = (target, tasks ++ t ∷ []) ∷ log

  pub Open-post :
      {s : Settings libs} {log : Log} {target : Bytes} {total done : ℕ} {h : List (Posted libs)}
      (t : Task libs)
      → Open s log target total done [] [] h
      → Open s
          (log_task (some t) log)
          target
          total
          done
          (t ∷ [])
          (posted s target t)
          (h ++ posted s target t)
  unfolding log_task
  Open-post {s} {target} t o = record {
    scans_before = o.scans_before;
    tasks = o.tasks;
    counted = rw (o.counted, append-nil o.tasks) refl;
    old = o.old;
    events = o.events;
    ended = o.ended;
    progressed = o.progressed;
    split = ap (λ x. x ++ posted s target t) (o.split ∙ append-nil (o.old ++ o.events));
  }

  pub Open-count :
      {s : Settings libs} {log : Log} {target : Bytes} {total done : ℕ} {t : Task libs}
      {h : List (Posted libs)}
      → done + 1 ≤ total
      → Open s log target total done (t ∷ []) (posted s target t) h
      → Open s log target total (done + 1) [] [] (h ++ progress_changed (done + 1) total ∷ [])
  Open-count {s} {target} {total} {done} {t} l o =
      let p = progress_changed (done + 1) total ∷ [] in
      record {
        scans_before = o.scans_before;
        tasks = o.tasks ++ t ∷ [];
        counted =
            o.counted
            ∙ ap (λ ts. (target, ts) ∷ o.scans_before) (sym (append-nil (o.tasks ++ t ∷ [])));
        old = o.old;
        events = o.events ++ posted s target t ++ p;
        ended = o.ended;
        progressed = one_done o.progressed t l;
        split =
            ap (λ x. x ++ p) o.split
            ∙ regroup o.old o.events (posted s target t) p
            ∙ sym (append-nil (o.old ++ (o.events ++ posted s target t ++ p)));
      }

  -- What the step of a turn reads of a future.
  abbrev pub read_in_try : Turn libs → Worker libs → Bool → Option (Task libs)
  read_in_try turn (collecting target (l ∷ ls) done total) cancel =
      if cancel then none else turn.get l
  read_in_try turn _ cancel = none

  abbrev pub unless_thrown : Option Bytes → Option (Task libs) → Option (Task libs)
  unless_thrown none read = read
  unless_thrown (some what) read = none

  -- The log behind a step of the worker.
  unfoldable pub logged : Turn libs → Controller libs → Log → Log
  unfolding log_task
  logged turn c log =
      log_task (unless_thrown turn.exception (read_in_try turn c.worker c.cancel)) log
