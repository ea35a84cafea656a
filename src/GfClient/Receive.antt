-- ===== src/GfClient/Receive.antt =====
-- The receive loop of `gfc_perform` in gflib/gfclient.c.
use intro_to_os.Base.{
  ℕ, ◌+◌, ◌%◌, ◌≡◌, ◌<◌, refl, ◌&&◌, [], ◌∷◌, List, Option, none, some, ◌==◌, ltb, lt→ltb, le→ltb,
  length, arith, ap, ◌∙◌, sym, Bool-cases, inl, inr, map, All, ==_iff,
}
use intro_to_os.Text.{Bytes}
use intro_to_os.GfClient.{
  Request, Callback, Performed, success, surplus, failure, undefined, finish, receive_loop,
  size_mod,
}

-- The run returns 0, and the request satisfies `P`.
abbrev pub Succeeds : (Request → Type 0) → Performed → Type 0
Succeeds P (success gfr) = P gfr
Succeeds P (surplus gfr copied unset) = ⊥
Succeeds P (failure gfr) = ⊥
Succeeds P undefined = ⊥

-- Where the run returns 0, the request satisfies `P`, and `writefunc` got only bytes that were set.
abbrev pub OnSuccess : (Request → Type 0) → Performed → Type 0
OnSuccess P (success gfr) = P gfr
OnSuccess P (surplus gfr copied unset) = ⊥
OnSuccess P (failure gfr) = Unit
OnSuccess P undefined = Unit

-- The state of the writer after these chunks.
abbrev pub write_all : Callback → Bytes → List Bytes → Bytes
write_all write out [] = out
write_all write out (chunk ∷ chunks) = write_all write (write chunk out) chunks

abbrev pub total : List Bytes → ℕ
total [] = 0
total (chunk ∷ chunks) = length chunk + total chunks

abbrev pub arrive : List Bytes → List (Option Bytes)
arrive chunks = map some chunks

-- If the chunks that arrive are not empty and add up to the bytes still missing, the loop takes
-- them all, in their order, and returns 0.
pub receive_loop_lem :
    (write : Callback) (gfr : Request) (numbytes filelen received : ℕ) (chunks : List Bytes)
    → 0 < numbytes
    → filelen < size_mod
    → received + total chunks ≡ filelen
    → All (λ chunk. 0 < length chunk) chunks
    → gfr.bytesreceived ≡ some received
    → receive_loop write gfr numbytes filelen received (arrive chunks)
      ≡ success (record gfr {
        bytesreceived = some filelen;
        writearg = write_all write gfr.writearg chunks;
      })
unfolding receive_loop
receive_loop_lem write gfr numbytes filelen received [] pos small sum all got =
    let e : received ≡ filelen = omega arith in
    rw (lt→ltb _ _ pos, le→ltb received filelen (omega arith), (==_iff filelen received).1 (sym e))
      (ap (λ b. success (record gfr { bytesreceived = b })) (got ∙ ap some e))
receive_loop_lem write gfr numbytes filelen received (chunk ∷ chunks) pos small sum all got =
    rw (lt→ltb _ _ pos, lt→ltb received filelen (omega (arith, all.0)), receive_loop)
      (receive_loop_lem write
        (record gfr {
          bytesreceived = some ((received + length chunk) % size_mod);
          writearg = write chunk gfr.writearg;
        })
        (length chunk) filelen ((received + length chunk) % size_mod) chunks all.0 small
        (omega arith) all.1 refl)

-- What the loop keeps, where it returns 0.
abbrev pub Counted : Request → (filelen : ℕ) → Request → Type 0
Counted gfr filelen gfr' =
    (gfr'.bytesreceived ≡ some filelen) × (gfr'.status ≡ gfr.status) × (gfr'.filelen ≡ gfr.filelen)

finish-Counted :
    (gfr : Request) (filelen received : ℕ)
    → gfr.bytesreceived ≡ some received
    → OnSuccess (Counted gfr filelen) (finish gfr filelen received)
finish-Counted gfr filelen received got = elim (Bool-cases (filelen == received)) [
  | inl same ↦ rw same (got ∙ ap some (sym ((==_iff filelen received).0 same)), refl, refl)
  | inr other ↦ rw other tt
]

-- The loop returns 0 only with as many bytes counted as the header stated, and keeps the status.
pub receive_loop-OnSuccess :
    (write : Callback) (gfr : Request) (numbytes filelen received : ℕ) (rs : List (Option Bytes))
    → gfr.bytesreceived ≡ some received
    → OnSuccess (Counted gfr filelen) (receive_loop write gfr numbytes filelen received rs)
unfolding receive_loop
receive_loop-OnSuccess write gfr numbytes filelen received [] got =
    elim (Bool-cases (ltb 0 numbytes && ltb received filelen)) [
      | inl more ↦
          rw more
            (finish-Counted (record gfr { writearg = write [] gfr.writearg }) filelen received got)
      | inr over ↦ rw over (finish-Counted gfr filelen received got)
    ]
receive_loop-OnSuccess write gfr numbytes filelen received (none ∷ rs) got =
    elim (Bool-cases (ltb 0 numbytes && ltb received filelen)) [
      | inl more ↦ rw (more, receive_loop) tt
      | inr over ↦ rw (over, receive_loop) (finish-Counted gfr filelen received got)
    ]
receive_loop-OnSuccess write gfr numbytes filelen received (some chunk ∷ rs) got =
    elim (Bool-cases (ltb 0 numbytes && ltb received filelen)) [
      | inl more ↦
          rw (more, receive_loop)
            (receive_loop-OnSuccess write
              (record gfr {
                bytesreceived = some ((received + length chunk) % size_mod);
                writearg = write chunk gfr.writearg;
              })
              (length chunk) filelen ((received + length chunk) % size_mod) rs refl)
      | inr over ↦ rw (over, receive_loop) (finish-Counted gfr filelen received got)
    ]
