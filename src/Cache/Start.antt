-- ===== src/Cache/Start.antt =====
-- `cache_init` makes a valid cache.
use qwen3_8_flash_next.Base.{ℕ, ◌^◌, ◌<◌, refl, arith, Bool}
use qwen3_8_flash_next.Probe.Empty.{used-empty, empty-IsProbed}
use qwen3_8_flash_next.Cache.Valid.{IsValid}
use qwen3_8_flash_next.Cache.{Policy, blank, init, home}

-- Cache_init with a byte budget below 2 ^ 63 makes a valid cache, under each policy and number of
-- partitions.
pub init-IsValid :
    (max_bytes partitions : ℕ) (policy : Policy) (has_free : Bool)
    → max_bytes < 2 ^ 63
    → IsValid (init max_bytes policy partitions has_free)
unfolding init
init-IsValid max_bytes partitions policy has_free small = record {
  probed =
      empty-IsProbed (home (λ _. blank)) 1024
        (record { exponent = 10; fits = omega arith; power = refl }) (omega arith);
  keys = λ p q a b sa sb same. absurd (cc (sa.1));
  listed = λ q p st. absurd (cc (st.1));
  stored = λ p i. absurd i;
  nodup = tt;
  live = λ p i. absurd i;
  words = λ p i. absurd i;
  counted = refl;
  filled = used-empty ℕ 0 1024;
  summed = refl;
  pins = refl;
  loaded = omega arith;
  enough = omega arith;
  small = omega arith;
  limit = small;
  within = λ _. omega arith;
}
