-- ===== src/Tests/Accepts.antt =====
-- Two connections handed over, and a thread that still has to signal.
use ssdd_final.Base.{ℕ, ◌≡◌, refl, true, false}
use ssdd_final.Accept.{
  System, accept, create, acquire, sleep, wake, pass, release, enter, copy, clear, signal, leave,
  Reach, start, later,
}
use ssdd_final.Accept.Exclusion.{main_inside, inside, inside_alone}
use ssdd_final.Accept.HandOver.{serving_own}
use ssdd_final.Accept.WakeUp.{IsAwaited, sleeping-IsAwaited}
use ssdd_final.Accept.Progress.{Wakes, sleeping-Wakes}

abbrev asleep : (s : System) × Reach 0 s
asleep = (
  _,
  later (later (later (later start (accept 7 refl)) (create refl)) (acquire refl refl))
      (sleep refl refl),
)

abbrev served : (s : System) × Reach 0 s
served = (
  _,
  later
      (later
        (later
          (later
            (later
              (later (later (later asleep.1 (enter 0 7 refl refl)) (copy 0 7 refl))
                (clear 0 7 7 refl))
              (signal 0 7 7 refl))
            (leave 0 7 7 refl))
          (wake refl refl))
        (pass refl refl))
      (release refl),
)

serving_own_example : ◌≡◌ {A = ℕ} 7 7
serving_own_example = serving_own served.1 0 7 7 refl

sleeping-IsAwaited_example : (i : ℕ) × IsAwaited asleep.0.sc (asleep.0.threads i)
sleeping-IsAwaited_example = sleeping-IsAwaited asleep.1 refl

sleeping-Wakes_example : Wakes asleep.0
sleeping-Wakes_example = sleeping-Wakes asleep.1 refl

abbrev at_work : (s : System) × Reach 0 s
at_work = (_, later asleep.1 (enter 0 7 refl refl))

inside_alone_example :
    (main_inside at_work.0.at ≡ false) × ((j : ℕ) → inside (at_work.0.threads j) ≡ true → j ≡ 0)
inside_alone_example = inside_alone at_work.1 0 refl
