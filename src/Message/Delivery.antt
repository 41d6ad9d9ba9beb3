-- ===== src/Message/Delivery.antt =====
-- A message from `send` to `receive`.
use os_demand_paging.Message.{send, receive, deliver, take_message}
use os_demand_paging.Sched.{resched, ready, dispatch, give_up, make_ready}
use os_demand_paging.Sleep.{unsleep}
use os_demand_paging.Process.{isbadpid, pr_recv, pr_rectim, state_eq}
use os_demand_paging.Kernel.{Kernel, Run, pure, and_then, ◌>>◌, done, switch, halt, set_proc}
use os_demand_paging.Base.{
  refl, inl, inr, ℕ, true, false, ◌≡◌, ◌≢◌, arith, ◌∙◌, Bool-cases, syserr, ok,
}

-- The state in which a run ends, or first gives up the processor.
abbrev pub state_of : {A : Type 0} → Run A → Kernel
state_of (done k a) = k
state_of (switch k next) = k
state_of (halt k) = k

-- No process has another message.
record SameMail (k k' : Kernel) : Type 0 where
  msg : (z : ℕ) → (k'.proctab z).prmsg ≡ (k.proctab z).prmsg
  has : (z : ℕ) → (k'.proctab z).prhasmsg ≡ (k.proctab z).prhasmsg

dispatch-SameMail : (k : Kernel) → SameMail k (state_of (dispatch k))
unfolding dispatch
dispatch-SameMail k = record { msg = λ z. ground arith; has = λ z. ground arith }

resched-SameMail : (k : Kernel) → SameMail k (state_of (resched k))
unfolding resched give_up dispatch
resched-SameMail k = record { msg = λ z. ground arith; has = λ z. ground arith }

state_of-and_then :
    {A B : Type 0} (r : Run A) (b : B) → state_of (and_then r (λ a. pure b)) ≡ state_of r
state_of-and_then (done k a) b = refl
state_of-and_then (switch k next) b = refl
state_of-and_then (halt k) b = refl

ready-SameMail : (pid : ℕ) (k : Kernel) → SameMail k (state_of ((ready pid >> pure ok) k))
unfolding ready make_ready
ready-SameMail pid k = elim (Bool-cases (isbadpid k.proctab pid)) [
  | inl bad ↦ rw bad (record { msg = λ z. refl; has = λ z. refl })
  | inr live ↦
      let m = resched-SameMail (make_ready pid k) in
      rw
        (
          live,
          state_of-and_then (and_then (resched (make_ready pid k)) (λ a. pure ok)) ok,
          state_of-and_then (resched (make_ready pid k)) ok,
        )
        (record { msg = λ z. m.msg z ∙ ground arith; has = λ z. m.has z ∙ ground arith })
]

unsleep-SameMail : (pid : ℕ) (k : Kernel) → SameMail k (unsleep pid k).0
unfolding unsleep
unsleep-SameMail pid k = record { msg = λ z. ground arith; has = λ z. ground arith }

-- In `k'` the process `pid` has the message, and nothing else is changed of the messages in `k`.
pub record Sent (k : Kernel) (pid msg : ℕ) (k' : Kernel) : Type 0 where
  pub msg_is : (k'.proctab pid).prmsg ≡ msg
  pub has : (k'.proctab pid).prhasmsg ≡ true
  pub others : (z : ℕ) → z ≢ pid → (k'.proctab z).prmsg ≡ (k.proctab z).prmsg
  pub others_has : (z : ℕ) → z ≢ pid → (k'.proctab z).prhasmsg ≡ (k.proctab z).prhasmsg

deliver-Sent : (k k' : Kernel) (pid msg : ℕ) → SameMail (deliver pid msg k) k' → Sent k pid msg k'
deliver-Sent k k' pid msg m = record {
  msg_is = m.msg pid ∙ ground arith;
  has = m.has pid ∙ ground arith;
  others = λ z n. m.msg z ∙ ground arith;
  others_has = λ z n. m.has z ∙ ground arith;
}

SameMail-trans : (a b c : Kernel) → SameMail a b → SameMail b c → SameMail a c
SameMail-trans a b c m n = record { msg = λ z. n.msg z ∙ m.msg z; has = λ z. n.has z ∙ m.has z }

send-Sent :
    (k : Kernel) (pid msg : ℕ)
    → isbadpid k.proctab pid ≡ false
    → (k.proctab pid).prhasmsg ≡ false
    → Sent k pid msg (state_of (send pid msg k))
unfolding send
send-Sent k pid msg live free =
    let k1 = deliver pid msg k in
    elim (Bool-cases (state_eq (k.proctab pid).prstate pr_recv)) [
      | inl waits ↦ rw (live, free, waits) (deliver-Sent k _ pid msg (ready-SameMail pid k1))
      | inr other ↦ elim (Bool-cases (state_eq (k.proctab pid).prstate pr_rectim)) [
        | inl timed ↦
            let k2 = (unsleep pid k1).0 in
            rw (live, free, other, timed)
              (deliver-Sent k _ pid msg
                (SameMail-trans k1 k2 _ (unsleep-SameMail pid k1) (ready-SameMail pid k2)))
        | inr runs ↦
            rw (live, free, other, runs)
              (deliver-Sent k k1 pid msg (record { msg = λ z. refl; has = λ z. refl }))
      ]
    ]

refused :
    (k : Kernel) (pid msg : ℕ) → (k.proctab pid).prhasmsg ≡ true → send pid msg k ≡ done k syserr
unfolding send
refused k pid msg has = elim (Bool-cases (isbadpid k.proctab pid)) [
  | inl bad ↦ rw bad refl
  | inr live ↦ rw (live, has) refl
]

-- The process `me` after it took its message.
abbrev pub taken : ℕ → Kernel → Kernel
taken me = set_proc me (λ p. record p { prhasmsg = false })

-- `send` to a live process without a message gives it the message, and no other process another
-- one, whether the receiver waits for a message, with or without a time limit, or does not wait, and
-- whether the processor changes hands or not. In the state after it a second `send` to the process
-- fails and changes nothing, and `receive`, once the process runs in it, returns the message at
-- once and takes it away.
pub receive-send :
    (k : Kernel) (pid msg second : ℕ)
    → isbadpid k.proctab pid ≡ false
    → (k.proctab pid).prhasmsg ≡ false
    → (k' : Kernel) × (state_of (send pid msg k) ≡ k')
      × Sent k pid msg k'
      × (send pid second k' ≡ done k' syserr)
      × (receive (record k' { currpid = pid }) ≡ done (taken pid (record k' { currpid = pid })) msg)
unfolding receive take_message
receive-send k pid msg second live free =
    let s = send-Sent k pid msg live free in
    (state_of (send pid msg k), refl, s, refused _ pid second s.has, rw (s.has, s.msg_is) refl)
