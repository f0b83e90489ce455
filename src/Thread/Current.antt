-- ===== src/Thread/Current.antt =====
-- The namespace CurrentThread of SrcFile/Thread.c: what each thread keeps of itself. `tid` is in CurrentThread.h,
-- which is not in the repository: it calls `cacheTid` if nothing is cached, and gives what is cached.
use simple_net_base.Prelude.{
  ℕ, ◌≡◌, ◌⊎◌, inr, refl, ap, Bool, List, [], ◌∷◌, arith, ◌==◌, if◌then◌else◌,
}
use simple_net_base.Prelude.Decimal.{codes}

-- `t_cachedTid` and `t_threadName`, and what gettid answers.
pub record Current : Type 0 where
  pub cached_tid : ℕ
  pub thread_name : List ℕ
  pub kernel_tid : ℕ

abbrev pub unknown : ℕ → Current
unknown kernel_tid = record {
  cached_tid = 0;
  thread_name = codes "unknown";
  kernel_tid = kernel_tid;
}

unfoldable pub cache_tid : Current → Current
cache_tid c = if c.cached_tid == 0 then record c { cached_tid = c.kernel_tid } else c

-- `tid`, as described above: the identifier is what is then cached.
unfoldable pub tid : Current → Current
unfolding cache_tid
tid c = cache_tid c

-- The constructor of ThreadNameInitializer, in the main thread.
unfoldable pub init : Current → Current
unfolding tid
init c = tid (record c { thread_name = codes "main" })

-- What a child has after fork: what its parent had, but for the kernel.
abbrev pub forked : ℕ → Current → Current
forked child c = record c { kernel_tid = child }

unfoldable pub after_fork : Current → Current
unfolding tid
after_fork c = tid (record c { cached_tid = 0; thread_name = codes "main" })

-- `isMainThread`, with what getpid answers.
unfoldable pub is_main_thread : ℕ → Current → Bool
unfolding tid
is_main_thread pid c = (tid c).cached_tid == pid

-- Looking the identifier up, and forking with the handler that the initializer has registered.
pub data Event : Type 0 where
  looks_up : Event
  forks : ℕ → Event

unfoldable pub happen : Event → Current → Current
unfolding tid after_fork
happen looks_up c = tid c
happen (forks child) c = after_fork (forked child c)

unfoldable pub run : List Event → Current → Current
run [] c = c
run (e ∷ es) c = run es (happen e c)

-- What is cached, if anything is, is what the kernel says.
abbrev pub IsKnown : Current → Type 0
IsKnown c = (c.cached_tid ≡ 0) ⊎ (c.cached_tid ≡ c.kernel_tid)

happen-IsKnown : (e : Event) (c : Current) → IsKnown c → IsKnown (happen e c)
unfolding happen
happen-IsKnown looks_up c k = ground (arith, k)
happen-IsKnown (forks child) c k = inr refl

run-IsKnown : (es : List Event) (c : Current) → IsKnown c → IsKnown (run es c)
unfolding run
run-IsKnown [] c k = k
run-IsKnown (e ∷ es) c k = run-IsKnown es (happen e c) (happen-IsKnown e c k)

told : (c : Current) → IsKnown c → (tid c).cached_tid ≡ c.kernel_tid
unfolding tid
told c k = ground (arith, k)

-- From a state in which nothing or the right identifier is cached, after any lookups and forks: `tid` gives the
-- identifier that the kernel has for the process or thread that asks, a child's after a fork, and
-- isMainThread holds exactly if that is the process's own.
pub run-tells :
    (es : List Event) (c : Current) (pid : ℕ)
    → IsKnown c
    → ((tid (run es c)).cached_tid ≡ (run es c).kernel_tid)
      × (is_main_thread pid (run es c) ≡ ((run es c).kernel_tid == pid))
unfolding is_main_thread
run-tells es c pid k =
    let d : Current = run es c in
    let e : (tid d).cached_tid ≡ d.kernel_tid = told d (run-IsKnown es c k) in
    (e, ap (λ n. n == pid) e)
