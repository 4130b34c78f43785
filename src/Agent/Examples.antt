-- ===== src/Agent/Examples.antt =====
-- A sampler that is started and halted, and one whose start fails.
use octo_performance.Prelude.{refl, String, inl, inr}
use octo_performance.Prelude.Int.{ℤ, pos}
use octo_performance.Prelude.Float.{Milli}
use octo_performance.Agent.{coarse, Static}
use octo_performance.Agent.Sampler.{
  Sampler, new_sampler, start, turn, Reach, here, next, started, turned, IsSound, Reach-IsSound,
}

abbrev fresh : Sampler Milli
unfolding new_sampler
fresh = new_sampler "ps" coarse (pos 42) (pos 0)

abbrev facts : Static
facts = record {
  hostname = "host";
  cores = pos 8;
  page_size = pos 4096;
  clock_tick = pos 100;
  boot_time = pos 0;
  cpu_model = "";
  kernel = "";
}

abbrev text_of : ℤ → String
text_of d = "1s"

-- Started, with a first reading that fails, one turn late, and halted.
abbrev begun : Sampler Milli
begun = (start fresh (inr facts) (inl "no such process")).1

abbrev turned_once : Sampler Milli
turned_once = turn begun (pos 600_000_000) (inl "no such process")

abbrev run : Reach text_of fresh turned_once
unfolding start fresh
run =
    next (next here (started (inr facts) (inl "no such process") refl))
      (turned (pos 600_000_000) (inl "no such process") refl refl)

Reach-IsSound_example : IsSound turned_once
unfolding new_sampler fresh
Reach-IsSound_example = Reach-IsSound "ps" coarse (pos 42) (pos 0) run
