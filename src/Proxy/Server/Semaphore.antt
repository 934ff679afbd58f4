-- ===== src/Proxy/Server/Semaphore.antt =====
-- What the server relies on of tokio's `Semaphore`, and a counter that does as much.
use zc_splice_proxy.Base.{Option, none, refl, some, suc, zero, ℕ, ◌≡◌}

-- `acquire` is `none` while `acquire_owned` waits; `release` is the drop of a permit.
pub record Semaphore : Type 1 where
  pub State : Type 0
  pub new : ℕ → State
  pub available : State → ℕ
  pub acquire : State → Option State
  pub release : State → State

-- A permit is a unit of what is available, and is handed out whenever there is one.
pub record SemaphoreLaws (sem : Semaphore) : Type 0 where
  pub available-new : (n : ℕ) → sem.available (sem.new n) ≡ n
  pub available-acquire :
      (s t : sem.State) → sem.acquire s ≡ some t → sem.available s ≡ suc (sem.available t)
  pub available_waits : (s : sem.State) → sem.acquire s ≡ none → sem.available s ≡ 0
  pub available-release : (s : sem.State) → sem.available (sem.release s) ≡ suc (sem.available s)

abbrev take_one : ℕ → Option ℕ
take_one zero = none
take_one (suc n) = some n

abbrev pub counter : Semaphore
counter = record { State = ℕ; new = λ n. n; available = λ s. s; acquire = take_one; release = suc }

take_one-some : (s t : ℕ) → take_one s ≡ some t → s ≡ suc t
take_one-some zero t h = absurd cc
take_one-some (suc s) t h = cc

take_one-none : (s : ℕ) → take_one s ≡ none → s ≡ 0
take_one-none zero h = refl
take_one-none (suc s) h = absurd cc

pub counter-SemaphoreLaws : SemaphoreLaws counter
counter-SemaphoreLaws = record {
  available-new = λ n. refl;
  available-acquire = take_one-some;
  available_waits = take_one-none;
  available-release = λ s. refl;
}
