-- ===== src/World.antt =====
-- What the commands act on: memory, the flash writer behind flash_writer.h, the page buffer, the
-- addresses of platform.h, and the ways a call can end.
use bootloader_proposal.Base.{
  ℕ, zero, suc, ◌+◌, ◌≤◌, ◌<◌, ◌≡◌, refl, ap, ◌⊎◌, List, [], ◌∷◌, ◌++◌, Bytes, length, Bool, true,
  false, if◌then◌else◌,
}

-- the byte at each address
abbrev pub Memory : Type 0
Memory = ℕ → ℕ

unfoldable pub bytes_at : Memory → ℕ → ℕ → Bytes
bytes_at m a zero = []
bytes_at m a (suc n) = m a ∷ bytes_at m (a + 1) n

pub length-bytes_at : (m : Memory) (a n : ℕ) → length (bytes_at m a n) ≡ n
unfolding bytes_at
length-bytes_at m a zero = refl
length-bytes_at m a (suc n) = ap suc (length-bytes_at m (a + 1) n)

-- An operation on flash takes time. `passing` is what memory holds on the way, `final` what it
-- holds at the end.
pub record Change : Type 0 where
  pub passing : List Memory
  pub final : Memory

-- flash_writer.h; platform/mcu/*/flash_writer.c implement it
pub record FlashWriter : Type 0 where
  pub page_erase : ℕ → Memory → Change
  pub page_write : ℕ → Bytes → Memory → Change

-- `n` agrees with `m` outside the `size` bytes from `start` on.
abbrev pub SameOutside : ℕ → ℕ → Memory → Memory → Type 0
SameOutside start size m n = (a : ℕ) → (a < start) ⊎ (start + size ≤ a) → n a ≡ m a

abbrev pub All {ℓ κ} : {A : Type ℓ} → (A → Type κ) → List A → Type κ
All P [] = Unit
All P (x ∷ xs) = P x × All P xs

pub All-left : (P : Memory → Type 0) (ms ns : List Memory) → All P (ms ++ ns) → All P ms
All-left P [] ns h = tt
All-left P (m ∷ ms) ns h = (h.0, All-left P ms ns h.1)

-- a list of states of memory of which more holds
pub All-weaken :
    (P Q : Memory → Type 0) (ms : List Memory) → ((m : Memory) → P m → Q m) → All P ms → All Q ms
All-weaken P Q [] f h = tt
All-weaken P Q (m ∷ ms) f h = (f m h.0, All-weaken P Q ms f h.1)

-- What is asked of a flash writer for pages of `size` bytes: to erase one, or to write all its bytes,
-- changes nothing outside it.
pub record KeepsToPages (flash : FlashWriter) (size : ℕ) (IsPage : ℕ → Type 0) : Type 0 where
  pub erase_passing :
      (a : ℕ) (m : Memory) → IsPage a → All (SameOutside a size m) (flash.page_erase a m).passing
  pub erase_final :
      (a : ℕ) (m : Memory) → IsPage a → SameOutside a size m (flash.page_erase a m).final
  pub write_passing :
      (a : ℕ) (bs : Bytes) (m : Memory)
      → IsPage a
      → length bs ≡ size
      → All (SameOutside a size m) (flash.page_write a bs m).passing
  pub write_final :
      (a : ℕ) (bs : Bytes) (m : Memory)
      → IsPage a
      → length bs ≡ size
      → SameOutside a size m (flash.page_write a bs m).final

-- the calls of flash_writer.h that were made
pub data FlashEvent : Type 0 where
  unlocked locked : FlashEvent
  erased : ℕ → FlashEvent
  wrote : ℕ → Bytes → FlashEvent

pub record World : Type 0 where
  pub memory : Memory
  -- FLASH_CR_LOCK: while it is set, the flash controller ignores what is written to its registers
  pub locked : Bool
  -- all that memory has held since the start, newest first
  pub history : List Memory
  -- newest first
  pub events : List FlashEvent
  -- `config_page_buffer`
  pub page_buffer : Bytes

abbrev pub change : Change → World → World
change c w = record w { memory = c.final; history = c.final ∷ (c.passing ++ w.history) }

abbrev pub log : FlashEvent → World → World
log e w = record w { events = e ∷ w.events }

abbrev pub flash_writer_unlock : World → World
flash_writer_unlock w = log unlocked (record w { locked = false })

abbrev pub flash_writer_lock : World → World
flash_writer_lock w = log locked (record w { locked = true })

-- An operation on flash changes memory where flash is unlocked.
abbrev pub flash_writer_page_erase : FlashWriter → ℕ → World → World
flash_writer_page_erase flash a w =
    let w' = log (erased a) w in if w.locked then w' else change (flash.page_erase a w.memory) w'

abbrev pub flash_writer_page_write : FlashWriter → ℕ → Bytes → World → World
flash_writer_page_write flash a bs w =
    let w' = log (wrote a bs) w in
    if w.locked then w' else change (flash.page_write a bs w.memory) w'

-- The addresses that platform.h gives, from the linker script.
pub record Platform : Type 0 where
  pub app_addr : ℕ
  pub config1_addr : ℕ
  pub config2_addr : ℕ
  pub config_page_size : ℕ
  pub flash_page_size : ℕ
  pub device_class : Bytes

-- How a call ends: it returns, the system is reset with a boot argument, or it has made an access
-- outside an object.
pub data Run (A : Type 0) : Type 0 where
  done : A → Run A
  reset : ℕ → World → Run A
  fault : Run A

infixl 5 ◌>>=◌
abbrev pub ◌>>=◌ : {A B : Type 0} → Run A → (A → Run B) → Run B
done a >>= f = f a
reset arg w >>= f = reset arg w
fault >>= f = fault

pub done_inj : {A : Type 0} {a b : A} → done a ≡ done b → a ≡ b
done_inj e = cc

pub >>=-assoc :
    {A B C : Type 0} (r : Run A) (f : A → Run B) (g : B → Run C) (h : A → Run C)
    → ((a : A) → h a ≡ f a >>= g)
    → r >>= h ≡ r >>= f >>= g
>>=-assoc (done a) f g h same = same a
>>=-assoc (reset arg w) f g h same = refl
>>=-assoc fault f g h same = refl

-- `P` holds of the world that a call leaves, however it ends; a fault leaves none.
abbrev pub Leaves {ℓ} : {A : Type 0} → (A → World) → (World → Type ℓ) → Run A → Type ℓ
Leaves world P (done a) = P (world a)
Leaves world P (reset arg w) = P w
Leaves world P fault = Unit

-- A chain of calls keeps what each of them keeps.
pub Leaves-bind {ℓ} :
    {A B : Type 0} (wa : A → World) (wb : B → World) (P : World → Type ℓ) (r : Run A)
    (f : A → Run B)
    → Leaves wa P r
    → ((a : A) → P (wa a) → Leaves wb P (f a))
    → Leaves wb P (r >>= f)
Leaves-bind wa wb P (done a) f h next = next a h
Leaves-bind wa wb P (reset arg w) f h next = h
Leaves-bind wa wb P fault f h next = tt

-- What implies another predicate does so of what a call leaves.
pub Leaves-weaken {ℓ κ} :
    {A : Type 0} (wa : A → World) (P : World → Type ℓ) (Q : World → Type κ) (r : Run A)
    → ((w : World) → P w → Q w)
    → Leaves wa P r
    → Leaves wa Q r
Leaves-weaken wa P Q (done a) f h = f (wa a) h
Leaves-weaken wa P Q (reset arg w) f h = f w h
Leaves-weaken wa P Q fault f h = tt

-- `P` holds of what a call returns, and `Q` of the world that a reset leaves.
abbrev pub Ends : {A : Type 0} → (A → Type 0) → (World → Type 0) → Run A → Type 0
Ends P Q (done a) = P a
Ends P Q (reset arg w) = Q w
Ends P Q fault = Unit

pub Ends-bind :
    {A B : Type 0} (P : A → Type 0) (P' : B → Type 0) (Q : World → Type 0) (r : Run A)
    (f : A → Run B)
    → Ends P Q r
    → ((a : A) → P a → Ends P' Q (f a))
    → Ends P' Q (r >>= f)
Ends-bind P P' Q (done a) f h next = next a h
Ends-bind P P' Q (reset arg w) f h next = h
Ends-bind P P' Q fault f h next = tt

pub anything : {A : Type 0} (r : Run A) → Ends (λ a. Unit {0}) (λ w. Unit {0}) r
anything (done a) = tt
anything (reset arg w) = tt
anything fault = tt

-- A predicate on the world alone, in both forms.
pub world-Ends :
    {A : Type 0} (P : World → Type 0) (world : A → World) (r : Run A)
    → Leaves world P r
    → Ends (λ a. P (world a)) P r
world-Ends P world (done a) h = h
world-Ends P world (reset arg w) h = h
world-Ends P world fault h = tt

pub Ends-world :
    {A : Type 0} (P : World → Type 0) (world : A → World) (r : Run A)
    → Ends (λ a. P (world a)) P r
    → Leaves world P r
Ends-world P world (done a) h = h
Ends-world P world (reset arg w) h = h
Ends-world P world fault h = tt
