-- ===== src/Client/Redirect.antt =====
-- What the loops of `callMDSWithRedirect` of internal/client/client.go and of `sendHeartbeat` of
-- internal/datanode/datanode.go do.
use file_storage.Base.{
  ◌⊎◌, ◌≢◌, eq_iff, Bool-cases, ◌≢◌, ℕ, zero, suc, String, ◌<>◌, true, false, ◌==◌, ◌≡◌, refl, ap,
  ◌∙◌, arith, inl, inr,
}
use file_storage.Text.Trim.{has_no_space, trim_space-has_no_space, after_first-append}
use file_storage.Client.{
  remote, cannot_connect, unreachable, retries_exhausted, err, CallError, Result, Answer-cases,
  Answer, refused, received, ok, extract_leader_addr, redirect, send_heartbeats,
}

-- The error of a server that does not lead (`ErrNotLeader` of internal/metadata/mds.go).
abbrev pub not_leader_text : String → String
not_leader_text leader = "not leader, redirect to " <> leader

-- The address of the leader is read back from the error that names it, if it has no space in it.
pub extract_leader_addr-not_leader_text :
    (leader : String)
    → has_no_space leader ≡ true
    → extract_leader_addr (not_leader_text leader) ≡ leader
unfolding extract_leader_addr
extract_leader_addr-not_leader_text leader h =
    rw (extract_leader_addr, after_first-append "not leader, redirect to " leader)
      (trim_space-has_no_space leader h)

module _ {A W : Type 0} (method : String) (call : String → W → Answer A × W) where
  -- What a number of rounds from an address come to. A round that is not the last one of the walk was
  -- answered with an error that names another server, and the next round calls that server.
  pub data Followed : ℕ → String → W → Result CallError A × W → Type 0 where
    gave_up : (addr : String) (w : W) → Followed zero addr w (err (retries_exhausted method), w)
    got_reply :
        (retries : ℕ) (addr : String) (a : A) (w last : W)
        → call addr w ≡ (received a, last)
        → Followed (suc retries) addr w (ok a, last)
    no_connection :
        (retries : ℕ) (addr e : String) (w last : W)
        → call addr w ≡ (unreachable e, last)
        → Followed (suc retries) addr w (err (cannot_connect addr e), last)
    got_error :
        (retries : ℕ) (addr e : String) (w last : W)
        → call addr w ≡ (refused e, last)
        → (extract_leader_addr e ≡ "") ⊎ (extract_leader_addr e ≡ addr)
        → Followed (suc retries) addr w (err (remote e), last)
    sent_on :
        (retries : ℕ) (addr e : String) (w then_w : W) (x : Result CallError A × W)
        → call addr w ≡ (refused e, then_w)
        → extract_leader_addr e ≢ ""
        → extract_leader_addr e ≢ addr
        → Followed retries (extract_leader_addr e) then_w x
        → Followed (suc retries) addr w x

  differs : (s t : String) → s == t ≡ false → s ≢ t
  differs s t other same = ground (arith, other, (eq_iff s t).1 same)

  -- Whatever the servers answer, the loop ends after at most as many calls as it has rounds: with the
  -- first reply, with the error of a connection that fails, with the first error that names no server
  -- or the one that was called, or, where every round's error named another server, with the error that
  -- the rounds are used up. Each call goes to the server that the error before it named.
  pub redirect-Followed :
      (retries : ℕ) (addr : String) (w : W)
      → Followed retries addr w (redirect retries method call addr w)
  unfolding redirect
  redirect-Followed zero addr w = gave_up addr w
  redirect-Followed (suc retries) addr w = elim (Answer-cases (call addr w)) [
    | inl (e, last, h) ↦ rw (h, redirect, h) (no_connection retries addr e w last h)
    | inr (inl (e, last, h)) ↦
        let leader = extract_leader_addr e in
        elim (Bool-cases (leader == "")) [
          | inl none_named ↦
              rw (h, redirect, h, none_named)
                (got_error retries addr e w last h (inl ((eq_iff leader "").0 none_named)))
          | inr named ↦ elim (Bool-cases (leader == addr)) [
            | inl itself ↦
                rw (h, redirect, h, named, itself)
                  (got_error retries addr e w last h (inr ((eq_iff leader addr).0 itself)))
            | inr other ↦
                rw (h, redirect, h, named, other)
                  (sent_on retries addr e w last _ h (differs leader "" named)
                    (differs leader addr other) (redirect-Followed retries leader last))
          ]
        ]
    | inr (inr (a, last, h)) ↦ rw (h, redirect, h) (got_reply retries addr a w last h)
  ]

  redirect-received :
      (retries : ℕ) (addr : String) (a : A) (w last : W)
      → call addr w ≡ (received a, last)
      → redirect (suc retries) method call addr w ≡ (ok a, last)
  unfolding redirect
  redirect-received retries addr a w last h = ground arith

  redirect-refused :
      (retries : ℕ) (addr leader message : String) (w then_w : W)
      → call addr w ≡ (refused message, then_w)
      → extract_leader_addr message ≡ leader
      → leader == "" ≡ false
      → leader == addr ≡ false
      → redirect (suc retries) method call addr w ≡ redirect retries method call leader then_w
  unfolding redirect
  redirect-refused retries addr leader message w then_w h named present other =
      ground (arith, ap (λ l. redirect retries method call l then_w) named)

  -- Where the first server names the leader, and the leader answers, the loop gives the answer.
  pub redirect-leader :
      (retries : ℕ) (addr leader : String) (a : A) (w then_w last : W)
      → call addr w ≡ (refused (not_leader_text leader), then_w)
      → call leader then_w ≡ (received a, last)
      → has_no_space leader ≡ true
      → leader == "" ≡ false
      → leader == addr ≡ false
      → redirect (suc (suc retries)) method call addr w ≡ (ok a, last)
  redirect-leader retries addr leader a w then_w last first second tight present other =
      redirect-refused (suc retries) addr leader (not_leader_text leader) w then_w first
        (extract_leader_addr-not_leader_text leader tight) present other
      ∙ redirect-received retries leader a then_w last second

  -- The heartbeat of a data node makes the calls that the client's loop makes.
  pub redirect-send_heartbeats :
      (retries : ℕ) (addr : String) (w : W)
      → (redirect retries method call addr w).1 ≡ send_heartbeats retries call addr w
  unfolding redirect send_heartbeats
  redirect-send_heartbeats zero addr w = refl
  redirect-send_heartbeats (suc retries) addr w = elim (Answer-cases (call addr w)) [
    | inl (e, w1, h) ↦ ground arith
    | inr (inl (e, w1, h)) ↦
        ground (arith, redirect-send_heartbeats retries (extract_leader_addr e) w1)
    | inr (inr (a, w1, h)) ↦ ground arith
  ]
