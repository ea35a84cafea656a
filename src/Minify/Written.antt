-- ===== src/Minify/Written.antt =====
-- The files that the workers of rpc_mt/minifyjpeg_main.c write.
use intro_to_os.Base.{
  ℕ, zero, suc, ◌≡◌, Bool, true, false, refl, sym, ◌∙◌, ap, [], ◌∷◌, List, Option, none, some, ◌==◌,
  get_elem?, if◌then◌else◌, All, All-get_elem?, All-set_elem, All-map,
}
use mathlib.Core.Path.{subst}
use intro_to_os.Text.{Bytes}
use intro_to_os.Text.Compare.{bytes_eq, bytes_eq_refl, eq_of_bytes_eq}
use intro_to_os.Minify.Worker.{
  Request, Phase, waiting, testing, returned, working, Worker, Disk, Pool, Process, running, exited,
  undefined, write_to_file, store, work, lock, test_queue, step_of, step, and_then, run,
}
use intro_to_os.Minify.Main.{start, new_workers}

-- The process goes on, with a pool that satisfies `P`.
abbrev pub Runs : (Pool → Type 0) → Process → Type 0
Runs P (running s) = P s
Runs P (exited status) = ⊥
Runs P undefined = ⊥

write_same :
    {A : Type 0} (can same : Bool) (new old want : A)
    → (same ≡ true → new ≡ want)
    → old ≡ want
    → (if can then (if same then new else old) else old) ≡ want
write_same true true new old want k e = k refl
write_same true false new old want k e = e
write_same false same new old want k e = e

true-ne_false : true ≡ false → ⊥
true-ne_false e = cc

module _ (can_write : Bytes → Bool) (minify_via_rpc : Bytes → ℕ × Bytes) (picture : Bytes → Bytes)
    (is_input : Bytes → Bool) (disk : Disk) where
  -- A request that can be worked on: its input is there, and the call gives the picture that is to
  -- stand in its output. The output is no input, and can be written.
  pub record Planned (r : Request) : Type 0 where
    pub output : Bytes
    pub source : Bytes
    pub named : r.outputfilename ≡ some output
    pub reads : disk r.inputfilename ≡ some source
    pub input : is_input r.inputfilename ≡ true
    pub apart : is_input output ≡ false
    pub writable : can_write output ≡ true
    pub scales : minify_via_rpc source ≡ (0, picture output)

  abbrev pub InHand : Phase → Type 0
  InHand waiting = Unit
  InHand testing = Unit
  InHand returned = Unit
  InHand (working r) = Planned r

  abbrev pub IsFine : Worker → Type 0
  IsFine w = InHand w.phase × (w.code ≡ 0)

  -- The output of this request holds its picture.
  abbrev pub IsWritten : Disk → Request → Type 0
  IsWritten files r = (o : Bytes) × (r.outputfilename ≡ some o) × (files o ≡ some (picture o))

  -- The requests that are left can be worked on, the inputs are as they were, no worker has failed, and
  -- the outputs of the others hold their pictures.
  pub record Kept (s : Pool) : Type 0 where
    pub queue : All Planned s.queue
    pub workers : All IsFine s.workers
    pub inputs : (name : Bytes) → is_input name ≡ true → s.disk name ≡ disk name
    pub written : All (IsWritten s.disk) s.handled

  write_self :
      (files : Disk) (o bytes : Bytes)
      → can_write o ≡ true
      → write_to_file can_write o bytes files o ≡ some bytes
  write_self files o bytes can = rw (can, bytes_eq_refl o) refl

  write_input :
      (files : Disk) (o name bytes : Bytes)
      → is_input o ≡ false
      → is_input name ≡ true
      → write_to_file can_write o bytes files name ≡ files name
  write_input files o name bytes apart input =
      write_same (can_write o) (bytes_eq name o) (some bytes) (files name) (files name)
        (λ e. absurd (true-ne_false (sym input ∙ ap is_input (eq_of_bytes_eq name o e) ∙ apart)))
        refl

  write-IsWritten :
      (files : Disk) (o : Bytes) (r : Request)
      → IsWritten files r
      → IsWritten (write_to_file can_write o (picture o) files) r
  write-IsWritten files o r (o', named, holds) = (
    o',
    named,
    write_same (can_write o) (bytes_eq o' o) (some (picture o)) (files o') (some (picture o'))
        (λ e. ap (λ n. some (picture n)) (sym (eq_of_bytes_eq o' o e))) holds,
  )

  module _ (i code : ℕ) (s : Pool) (k : Kept s) where
    lock-Kept : (b : Bool) → code ≡ 0 → Runs Kept (lock can_write minify_via_rpc i code b s)
    unfolding lock
    lock-Kept true zero_code = k
    lock-Kept false zero_code = record {
      queue = k.queue;
      workers = All-set_elem IsFine i _ s.workers k.workers (tt, zero_code);
      inputs = k.inputs;
      written = k.written;
    }

    test_queue-Kept :
        (queue : List Request)
        → All Planned queue
        → code ≡ 0
        → Runs Kept (test_queue can_write minify_via_rpc i code queue s)
    unfolding test_queue
    test_queue-Kept [] all zero_code = record {
      queue = k.queue;
      workers = All-set_elem IsFine i _ s.workers k.workers (tt, zero_code);
      inputs = k.inputs;
      written = k.written;
    }
    test_queue-Kept (r ∷ queue) all zero_code = record {
      queue = all.1;
      workers = All-set_elem IsFine i _ s.workers k.workers (all.0, zero_code);
      inputs = k.inputs;
      written = k.written;
    }

    store-Kept :
        (r : Request) (p : Planned r)
        → Runs Kept (store can_write minify_via_rpc i r true 0 (some p.output) (picture p.output) s)
    unfolding store
    store-Kept r p = record {
      queue = k.queue;
      workers = All-set_elem IsFine i _ s.workers k.workers (tt, refl);
      inputs = λ name input.
          write_input s.disk p.output name (picture p.output) p.apart input ∙ k.inputs name input;
      written = (
        (p.output, p.named, write_self s.disk p.output (picture p.output) p.writable),
        All-map (IsWritten s.disk) _ s.handled k.written (write-IsWritten s.disk p.output),
      );
    }

    store_lem :
        (r : Request) (p : Planned r)
        → work can_write minify_via_rpc i r (some p.source) s
          ≡ store can_write minify_via_rpc i r true 0 (some p.output) (picture p.output) s
    unfolding work
    store_lem r p =
        ap (λ c. store can_write minify_via_rpc i r (c.0 == 0) c.0 r.outputfilename c.1 s) p.scales
        ∙ ap (λ o. store can_write minify_via_rpc i r true 0 o (picture p.output) s) p.named

    work-Kept :
        (r : Request)
        → Planned r
        → Runs Kept (work can_write minify_via_rpc i r (s.disk r.inputfilename) s)
    work-Kept r p =
        subst (Runs Kept)
          (sym (
            ap (λ d. work can_write minify_via_rpc i r d s)
              (k.inputs r.inputfilename p.input ∙ p.reads)
            ∙ store_lem r p))
          (store-Kept r p)

    step_of-Kept :
        (phase : Phase)
        → InHand phase
        → code ≡ 0
        → Runs Kept (step_of can_write minify_via_rpc i phase code s)
    unfolding step_of
    step_of-Kept waiting h zero_code = lock-Kept s.locked zero_code
    step_of-Kept testing h zero_code = test_queue-Kept s.queue k.queue zero_code
    step_of-Kept (working r) h zero_code = work-Kept r h
    step_of-Kept returned h zero_code = k

  step-Kept :
      (i : ℕ) (s : Pool) (w : Option Worker)
      → get_elem? s.workers i ≡ w
      → Kept s
      → Runs Kept (step can_write minify_via_rpc i s)
  unfolding step
  step-Kept i s none e k = rw (e, step) k
  step-Kept i s (some w) e k =
      let fine : IsFine w = All-get_elem? IsFine s.workers i w k.workers e in
      rw (e, step) (step_of-Kept i w.code s k w.phase fine.0 fine.1)

  Runs-and_then :
      (r : Process) (next : Pool → Process)
      → Runs Kept r
      → ((s : Pool) → Kept s → Runs Kept (next s))
      → Runs Kept (and_then r next)
  Runs-and_then (running s) next k h = h s k
  Runs-and_then (exited status) next k h = absurd k
  Runs-and_then undefined next k h = absurd k

  pub run-Kept :
      (schedule : List ℕ) (s : Pool) → Kept s → Runs Kept (run can_write minify_via_rpc schedule s)
  unfolding run
  run-Kept [] s k = k
  run-Kept (i ∷ schedule) s k =
      Runs-and_then (step can_write minify_via_rpc i s) (run can_write minify_via_rpc schedule)
        (step-Kept i s (get_elem? s.workers i) refl k) (run-Kept schedule)

  new_workers-IsFine : (n : ℕ) → All IsFine (new_workers n)
  unfolding new_workers
  new_workers-IsFine zero = tt
  new_workers-IsFine (suc n) = ((tt, refl), new_workers-IsFine n)

  pub start-Kept :
      (n : ℕ) (requests : List Request) → All Planned requests → Kept (start n requests disk)
  unfolding start
  start-Kept n requests planned = record {
    queue = planned;
    workers = new_workers-IsFine n;
    inputs = λ name input. refl;
    written = tt;
  }
