-- ===== src/Hardware.antt =====
-- internal/watcher/hardware.go: the profile from the answers of gopsutil, `none` where it fails.
use dialtone_watcher.Prelude.{
  ℕ, ◌*◌, ◌+◌, ◌%◌, ◌≡◌, Option, none, some, ◌>>=◌, List, [], ◌∷◌, Text, codes, ◌==◌, nat_eq,
  list_eq, if◌then◌else◌, arith,
}
use dialtone_watcher.Prelude.Int.{ℤ, pos}
use dialtone_watcher.Words.{u64, add64}
use dialtone_watcher.Float.{Float64}
use dialtone_watcher.Strings.{trim_space, to_lower}
use dialtone_watcher.Dict.{found_or}
use dialtone_watcher.Records.{HardwareProfile}

-- `host.InfoStat` and `cpu.InfoStat`, as far as they are read
pub record HostInfo : Type 0 where
  pub hostname : Text
  pub os : Text
  pub platform : Text
  pub platform_version : Text
  pub kernel_version : Text
  pub uptime : ℕ

pub record CpuInfo (F : Type 0) : Type 0 where
  pub model_name : Text
  pub mhz : F

pub record Machine (F : Type 0) : Type 0 where
  pub host_info : Option HostInfo
  pub cpu_info : Option (List (CpuInfo F))
  pub physical : Option ℤ
  pub logical : Option ℤ
  pub total_memory : Option ℕ
  -- what `disk.Usage` says of each partition
  pub partitions : Option (List (Option ℕ))

-- `strings.EqualFold` on ASCII
unfoldable pub normalize_platform : Text → Text → Text
unfolding to_lower trim_space
normalize_platform os_name platform =
    if to_lower (trim_space os_name) == codes "darwin" then codes "macOS" else platform

-- the loop over the partitions
unfoldable pub total_disk : List (Option ℕ) → ℕ → ℕ
unfolding add64
total_disk [] total = total
total_disk (none ∷ usages) total = total_disk usages total
total_disk (some size ∷ usages) total = total_disk usages (add64 total size)

module _ {F : Type 0} ⦃fl : Float64 F⦄ where
  abbrev pub to_gb : ℕ → F
  to_gb n = fl.fdiv (fl.from_uint n) (fl.from_uint (1024 * 1024 * 1024))

  abbrev pub first_cpu : Option (List (CpuInfo F)) → CpuInfo F
  first_cpu (some (cpu ∷ _)) = cpu
  first_cpu _ = record { model_name = []; mhz = fl.fzero }

  abbrev pub disk_gb : Option (List (Option ℕ)) → F
  disk_gb none = fl.fzero
  disk_gb (some usages) = to_gb (total_disk usages 0)

  abbrev pub memory_gb : Option ℕ → F
  memory_gb none = fl.fzero
  memory_gb (some total) = to_gb total

  -- `none` is the error of `host.Info`
  unfoldable pub collect_hardware_profile : Machine F → Option (HardwareProfile F)
  unfolding normalize_platform total_disk
  collect_hardware_profile m = do
    host ← m.host_info
    some (record {
      hostname = host.hostname;
      os = host.os;
      platform = normalize_platform host.os host.platform;
      platform_version = host.platform_version;
      kernel_version = host.kernel_version;
      uptime_seconds = host.uptime;
      cpu_model = (first_cpu m.cpu_info).model_name;
      cpu_physical_cores = found_or m.physical (pos 0);
      cpu_logical_cores = found_or m.logical (pos 0);
      cpu_frequency_mhz = (first_cpu m.cpu_info).mhz;
      total_memory_gb = memory_gb m.total_memory;
      total_disk_gb = disk_gb m.partitions;
    })

abbrev pub readable_sum : List (Option ℕ) → ℕ
readable_sum [] = 0
readable_sum (none ∷ usages) = readable_sum usages
readable_sum (some size ∷ usages) = size + readable_sum usages

-- The partitions whose usage can be read add up, as a `uint64`.
pub total_disk_lem :
    (usages : List (Option ℕ)) (total : ℕ)
    → total_disk usages total % u64 ≡ (total + readable_sum usages) % u64
unfolding total_disk
total_disk_lem [] total = omega arith
total_disk_lem (none ∷ usages) total = total_disk_lem usages total
total_disk_lem (some size ∷ usages) total = omega (arith, total_disk_lem usages (add64 total size))
