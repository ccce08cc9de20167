-- ===== src/Server/Pooling/Places.antt =====
-- tcpserver/pooled_goroutine_server.go: how often a connection stands in each place of the server.
use ant_cache.Base.{
  replicate, ℕ, zero, suc, ◌+◌, ◌≡◌, refl, sym, ap, ◌∙◌, inl, inr, Bool, true, false, Bool-cases,
  if_false, ◌==◌, Option, none, some, List, [], ◌∷◌, ◌++◌, arith,
}
use ant_cache.Item.{Compression}
use ant_cache.Server.Accepting.{Connection, authenticated_of, authenticate, leave}
use ant_cache.Server.Pooling.{PooledServer}

-- The connections that wait in the channel.
abbrev pub waiting : List (Option ℕ) → ℕ
waiting [] = 0
waiting (some _ ∷ rest) = suc (waiting rest)
waiting (none ∷ rest) = waiting rest

pub waiting-append : (xs ys : List (Option ℕ)) → waiting (xs ++ ys) ≡ waiting xs + waiting ys
waiting-append [] ys = omega arith
waiting-append (some _ ∷ xs) ys = omega (arith, waiting-append xs ys)
waiting-append (none ∷ xs) ys = waiting-append xs ys

pub waiting-replicate : (n : ℕ) → waiting (replicate n none) ≡ 0
waiting-replicate zero = refl
waiting-replicate (suc n) = waiting-replicate n

abbrev pub one : Bool → ℕ
one true = 1
one false = 0

-- How often a connection stands in the channel, with the workers, at the accept loop, in a list.
abbrev pub waits : ℕ → List (Option ℕ) → ℕ
waits n [] = 0
waits n (some m ∷ rest) = one (m == n) + waits n rest
waits n (none ∷ rest) = waits n rest

abbrev pub handled : ℕ → List Connection → ℕ
handled n [] = 0
handled n (x ∷ xs) = one (x.number == n) + handled n xs

abbrev pub offered : ℕ → Option ℕ → ℕ
offered n none = 0
offered n (some m) = one (m == n)

abbrev pub times : ℕ → List ℕ → ℕ
times n [] = 0
times n (m ∷ ms) = one (m == n) + times n ms

abbrev pub places : {z : Compression} → ℕ → PooledServer z → ℕ
places n st =
    offered n st.submitting
    + waits n st.task_chan
    + handled n st.busy
    + times n st.done
    + times n st.turned_away

pub waits-append : (n : ℕ) (xs ys : List (Option ℕ)) → waits n (xs ++ ys) ≡ waits n xs + waits n ys
waits-append n [] ys = omega arith
waits-append n (some _ ∷ xs) ys = omega (arith, waits-append n xs ys)
waits-append n (none ∷ xs) ys = waits-append n xs ys

pub waits-replicate : (n k : ℕ) → waits n (replicate k none) ≡ 0
waits-replicate n zero = refl
waits-replicate n (suc k) = waits-replicate n k

pub handled-leave :
    (m n : ℕ) (b : Bool) (xs : List Connection)
    → authenticated_of n xs ≡ some b
    → handled m xs ≡ handled m (leave n xs) + one (n == m)
handled-leave m n b [] e = absurd (cc e)
handled-leave m n b (x ∷ xs) e = elim (Bool-cases (x.number == n)) [
  | inl same ↦ rw same (ground arith)
  | inr other ↦
      let rest =
        handled-leave m n b xs (
          sym (if_false (x.number == n) (some x.authenticated) (authenticated_of n xs) other)
          ∙ e) in
      rw other (omega (arith, rest))
]

pub handled-authenticate :
    (m n : ℕ) (b : Bool) (xs : List Connection) → handled m (authenticate n b xs) ≡ handled m xs
handled-authenticate m n b [] = refl
handled-authenticate m n b (x ∷ xs) = elim (Bool-cases (x.number == n)) [
  | inl same ↦ rw same refl
  | inr other ↦ rw other (ap (λ k. one (x.number == m) + k) (handled-authenticate m n b xs))
]

abbrev pub pending : Option ℕ → ℕ
pending none = 0
pending (some _) = 1
