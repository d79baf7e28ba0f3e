-- ===== src/Tests/Toy.antt =====
-- Concrete libraries for the runs: a checksum, the message format of Tests/Codec.antt, and flash
-- memories with pages of 16 and of 256 bytes.
use bootloader_proposal.Base.{
  ℕ, true, ◌+◌, ◌%◌, ◌≤◌, ◌<◌, ◌≡◌, ◌⊎◌, inl, refl, ap₂, ◌∙◌, [], ◌∷◌, ◌++◌, ◌==◌, ==_refl, ne→==,
  if◌then◌else◌, length, replicate, length-replicate, take, length-take, arith, Bytes, u32_mod,
}
use bootloader_proposal.Cmp.{pos}
use bootloader_proposal.Tests.Codec.{byte_cmp}
use bootloader_proposal.Command.Types.{Parts}
use bootloader_proposal.Command.Redundancy.{IsKept}
use bootloader_proposal.Command.Below.{KeepsBelow}
use bootloader_proposal.Command.Save.{StoresPages}
use bootloader_proposal.Config.{Config, config_is_valid}
use bootloader_proposal.World.{Memory, bytes_at, FlashWriter, KeepsToPages, World}

-- the sum of the bytes
unfoldable pub sum : ℕ → Bytes → ℕ
sum c [] = c % u32_mod
sum c (b ∷ bs) = sum (c + b) bs

sum-same : (x y : ℕ) (bs : Bytes) → x % u32_mod ≡ y % u32_mod → sum x bs ≡ sum y bs
unfolding sum
sum-same x y [] e = e
sum-same x y (b ∷ bs) e = sum-same (x + b) (y + b) bs (omega arith)

-- A sum goes on from the sum of a part.
pub sum-append : (c : ℕ) (xs ys : Bytes) → sum (sum c xs) ys ≡ sum c (xs ++ ys)
unfolding sum
sum-append c [] ys = sum-same (c % u32_mod) c ys (omega arith)
sum-append c (x ∷ xs) ys = sum-append (c + x) xs ys

pub sum-word : (c : ℕ) (bs : Bytes) → sum c bs < u32_mod
unfolding sum
sum-word c [] = omega arith
sum-word c (b ∷ bs) = sum-word (c + b) bs

abbrev pub at : ℕ → ℕ → Memory → Memory
at a b m = λ x. if x == a then b else m x

unfoldable pub over : ℕ → Bytes → Memory → Memory
over a [] m = m
over a (b ∷ bs) m = over (a + 1) bs (at a b m)

pub over-outside :
    (bs : Bytes) (a : ℕ) (m : Memory) (x : ℕ) → (x < a) ⊎ (a + length bs ≤ x) → over a bs m x ≡ m x
unfolding over
over-outside [] a m x h = refl
over-outside (b ∷ bs) a m x h =
    over-outside bs (a + 1) (at a b m) x (omega arith) ∙ rw (ne→== x a (omega arith))

pub bytes_at-over : (bs : Bytes) (a : ℕ) (m : Memory) → bytes_at (over a bs m) a (length bs) ≡ bs
unfolding over bytes_at
bytes_at-over [] a m = refl
bytes_at-over (b ∷ bs) a m =
    ap₂ ◌∷◌ (over-outside bs (a + 1) (at a b m) a (omega arith) ∙ rw (==_refl a))
      (bytes_at-over bs (a + 1) (at a b m))

-- A write passes through the state in which one byte is written.
abbrev pub page_flash : ℕ → FlashWriter
page_flash size = record {
  page_erase = λ a m. record { passing = []; final = over a (replicate size 255) m };
  page_write = λ a bs m. record { passing = over a (take 1 bs) m ∷ []; final = over a bs m };
}

abbrev pub AnyPage : ℕ → Type 0
AnyPage a = Unit {0}

pub page_flash-KeepsToPages : (size : ℕ) → KeepsToPages (page_flash size) size AnyPage
page_flash-KeepsToPages size = record {
  erase_passing = λ a m page. tt;
  erase_final = λ a m page x h.
      over-outside (replicate size 255) a m x (omega (arith, length-replicate {A = ℕ} size 255));
  write_passing = λ a bs m page len.
      (λ x h. over-outside (take 1 bs) a m x (omega (arith, len, length-take 1 bs)), tt);
  write_final = λ a bs m page len x h. over-outside bs a m x (omega (arith, len));
}

pub page_flash-StoresPages : (size : ℕ) → StoresPages (page_flash size) size AnyPage
page_flash-StoresPages size a bs m page e bytes =
    rw e at (bytes_at-over bs a ((page_flash size).page_erase a m).final)

abbrev pub toy_config : Config
toy_config = record {
  id = 5;
  board_name = 66 ∷ 0 ∷ [];
  device_class = 67 ∷ 0 ∷ [];
  application_crc = 0;
  application_size = 3;
  update_count = 7;
}

-- pages of `size` bytes, two of them for configurations, and the application behind
abbrev pub node_of : (size config1 config2 app : ℕ) → Parts
node_of size config1 config2 app = record {
  crc32 = sum;
  cmp = byte_cmp;
  flash = page_flash size;
  platform = record {
    app_addr = app;
    config1_addr = config1;
    config2_addr = config2;
    config_page_size = size;
    flash_page_size = size;
    device_class = 67 ∷ [];
  };
  locals = record { number = 9; integer = pos 9; buffer64 = replicate 64 1 };
}

abbrev pub toy : Parts
toy = node_of 16 32 48 64

-- All memory is zero, so that both configuration pages are valid.
abbrev pub toy_world : World
toy_world = record {
  memory = λ a. 0;
  locked = true;
  history = [];
  events = [];
  page_buffer = replicate 16 0;
}

pub page_flash-KeepsBelow : (size app : ℕ) → KeepsBelow (page_flash size) app (λ e. true)
page_flash-KeepsBelow size app = record {
  erase_passing = λ a m le inside. tt;
  erase_final = λ a m le inside x h. over-outside (replicate size 255) a m x (inl (omega arith));
  write_passing =
      λ a bs m le inside. (λ x h. over-outside (take 1 bs) a m x (inl (omega arith)), tt);
  write_final = λ a bs m le inside x h. over-outside bs a m x (inl (omega arith));
}

-- All pages of zero bytes are valid: the sum of no bytes is zero.
pub toy_world-IsKept : IsKept toy toy_world
unfolding config_is_valid bytes_at sum
toy_world-IsKept = record { now = inl refl; always = tt }
