-- ===== src/Minify/Remote.antt =====
-- The RPC client of rpc_mt/minifyjpeg_main.c against the service of minifyjpeg_svc.c in gios-spr-2018-pr4-master,
-- over the RPC library: what comes to the files of the client.
use intro_to_os.Base.{
  ◌*◌, ◌+◌, ℕ, ◌^◌, ◌≡◌, ◌<◌, ◌≤◌, Bool, true, false, List, Option, some, length, All, All-map,
}
use intro_to_os.Text.{Bytes}
use intro_to_os.Launch.{ready}
use intro_to_os.Rpc.Call.{returned}
use intro_to_os.Rpc.Call as Call
use intro_to_os.Rpc.Xdr.{Primitives, IsXdr}
use intro_to_os.Rpc.Image.{minified, magickminify}
use intro_to_os.Rpc.Dispatch.{Library}
use intro_to_os.Rpc.Remote.{
  ClntCall, minifyjpeg_proc_1, Delivers, serve, minify_via_rpc-serve_shorter,
}
use intro_to_os.Minify.Worker.{Request, Disk}
use intro_to_os.Minify.Main.{MinifyOption, Config, defaults, options}
use intro_to_os.Minify.Program.{load_requests, connect_all, threads_of, main}
use intro_to_os.Minify.Written.{Planned}
use intro_to_os.Minify.Finished.{AllWritten}
use intro_to_os.Minify.Fair.{IsRound, concat_turns}
use intro_to_os.Minify.Ended.{Finishes, main-Finishes}

module _ (xdr : Primitives) (magick : Library) (clnt_call : ClntCall) (sound : IsXdr xdr)
    (delivers : Delivers (serve false xdr magick) clnt_call) (src_len dst_len : ℕ)
    (fits : src_len < 2 ^ 32) (fits' : dst_len < 2 ^ 32) (call : Bytes → ℕ × Bytes)
    (calls : (src dst : Bytes)
      → Call.minify_via_rpc (minifyjpeg_proc_1 xdr clnt_call src_len dst_len) src
        ≡ returned 0 (some dst)
      → call src ≡ (0, dst))
    (can_write : Bytes → Bool) (picture : Bytes → Bytes) (is_input : Bytes → Bool)
    (disk : Disk) where
  -- A request for a file that is there and below 4 GB, whose scaled image is no longer than the file; its
  -- output is no input, and can be written.
  pub record Scalable (r : Request) : Type 0 where
    pub output : Bytes
    pub source : Bytes
    pub named : r.outputfilename ≡ some output
    pub reads : disk r.inputfilename ≡ some source
    pub input : is_input r.inputfilename ≡ true
    pub apart : is_input output ≡ false
    pub writable : can_write output ≡ true
    pub scales : magickminify (magick true) source ≡ minified (picture output)
    pub small : length source < 2 ^ 32
    pub shorter : length (picture output) ≤ length source

  Scalable-Planned : (r : Request) → Scalable r → Planned can_write call picture is_input disk r
  Scalable-Planned r s = record {
    output = s.output;
    source = s.source;
    named = s.named;
    reads = s.reads;
    input = s.input;
    apart = s.apart;
    writable = s.writable;
    scales = calls s.source (picture s.output) (
        minify_via_rpc-serve_shorter false xdr magick clnt_call sound delivers src_len dst_len
          s.source (picture s.output) fits fits' s.small s.scales s.shorter);
  }

  -- The program against the service of minifyjpeg_svc.c, which answers one call behind the other, over XDR
  -- primitives that read what they wrote, and an RPC library that delivers the answer of the service to
  -- every call before its timeout, whatever the two `int` fields of a request that the client leaves
  -- unassigned hold. Let the options be accepted with a number of threads
  -- that is at least 1, the workload be read, every thread get its client, and each request of the
  -- workload be for a file below 4 GB that can be scaled, is no longer then, and has an output that
  -- is no input and can be written. If the threads take turns so that each has one in every round,
  -- and there are three rounds for each request and two for each thread, then the program ends
  -- behind its last join, with status 0 and with the scaled image of its input in every output.
  pub main-serve :
      (requests : List Request) (connects : ℕ → Bool) (rounds : List (List ℕ))
      (os : List MinifyOption) (words : Bytes → Option (List Bytes)) (c : Config)
      → options os defaults ≡ ready c
      → 0 < threads_of c.nthreads
      → load_requests (words c.workload) ≡ ready requests
      → connect_all connects (threads_of c.nthreads) 0 ≡ true
      → All Scalable requests
      → All (IsRound (threads_of c.nthreads)) rounds
      → 3 * length requests + 2 * threads_of c.nthreads ≤ length rounds
      → Finishes
          (AllWritten can_write call picture is_input disk requests)
          (main can_write call connects (concat_turns rounds) disk os words)
  main-serve requests connects rounds os words c accepted pos read connected all fair enough =
      main-Finishes can_write call picture is_input disk requests connects rounds os words c
        accepted pos read connected
        (All-map Scalable (Planned can_write call picture is_input disk) requests all
          Scalable-Planned)
        fair enough
