-- ===== src/Examples/Parameters.antt =====
-- Whole numbers for floats, and two addresses, one public and one private.
use dialtone_watcher.Uploader.Config.{Environment, RunOptions}
use dialtone_watcher.Prelude.{
  ◌↔◌, ◌*◌, ℕ, ◌+◌, ◌/◌, Bool, true, false, Option, none, some, ◌≡◌, refl, Text, codes, ltb,
  nat_beq, arith, if◌then◌else◌, ◌==◌, list_eq, nat_eq, [],
}
use dialtone_watcher.Prelude.Int.{pos}
use dialtone_watcher.Float.{Float64}
use dialtone_watcher.Netip.{Netip}
use dialtone_watcher.Records.{HardwareProfile, Summary}
use dialtone_watcher.Uploader.{UploadConfig, Uploader, empty_window}
use dialtone_watcher.Uploader.Flush.{Web}
use dialtone_watcher.Service.{Service}
use dialtone_watcher.Service.Poll.{new_service}
use dialtone_watcher.Service.Summary.{Self, empty_process}
use dialtone_watcher.Clock.{second}

pub ltb_asymm : (a b : ℕ) → ltb a b ≡ true → ltb b a ≡ false
ltb_asymm a b h = ground arith

pub ltb_trans : (a b c : ℕ) → ltb a b ≡ false → ltb b c ≡ false → ltb a c ≡ false
ltb_trans a b c h k = ground arith

pub nat_beq_tie : (a b : ℕ) → (nat_beq a b ≡ true) ↔ ((ltb a b ≡ false) × (ltb b a ≡ false))
nat_beq_tie a b = ground arith

instance abbrev pub whole : Float64 ℕ
whole = record {
  fzero = 0;
  fadd = ◌+◌;
  fdiv = ◌/◌;
  flt = ltb;
  feq = nat_beq;
  from_uint = λ n. n;
  is_nan = λ _. false;
  flt_asymm = λ a b _ _ h. ltb_asymm a b h;
  flt_trans = λ a b c _ _ _ h k. ltb_trans a b c h k;
  feq_iff = λ a b _ _. nat_beq_tie a b;
}

pub data Site : Type 0 where
  office server : Site

abbrev pub site_text : Site → Text
site_text office = codes "10.0.0.1"
site_text server = codes "8.8.8.8"

abbrev pub parse_site : Text → Option Site
parse_site s =
    if s == codes "10.0.0.1"
    then some office
    else if s == codes "8.8.8.8"
    then some server
    else none

pub parse_site-site_text : (a : Site) → parse_site (site_text a) ≡ some a
parse_site-site_text office = refl
parse_site-site_text server = refl

abbrev pub is_office : Site → Bool
is_office office = true
is_office server = false

instance abbrev pub sites : Netip
sites = record {
  Addr = Site;
  parse_addr = parse_site;
  to_text = site_text;
  is_loopback = λ _. false;
  is_private = is_office;
  is_link_local_unicast = λ _. false;
  is_link_local_multicast = λ _. false;
  is_multicast = λ _. false;
  is_unspecified = λ _. false;
  parse_addr-to_text = parse_site-site_text;
  parse_addr-nil = refl;
}

abbrev pub config : UploadConfig
config = record {
  enabled = true;
  endpoint = codes "https://dialtoneapp.com/api/v1/watcher";
  interval = pos (15 * second);
  timeout = pos (10 * second);
}

-- An empty environment, in which no duration can be read.
abbrev pub environment : Environment
environment = record { getenv = λ _. []; parse_duration = λ _. none }

abbrev pub production : RunOptions
production = record { test_mode = false }

abbrev pub uploader : Uploader ℕ
uploader = record { config = config; machine_id = codes "m"; window = empty_window 0 }

abbrev pub laptop : HardwareProfile ℕ
laptop = record {
  hostname = codes "laptop";
  os = codes "linux";
  platform = codes "debian";
  platform_version = codes "12";
  kernel_version = codes "6.1";
  uptime_seconds = 100;
  cpu_model = codes "Apple M4 Max";
  cpu_physical_cores = pos 14;
  cpu_logical_cores = pos 14;
  cpu_frequency_mhz = 4000;
  total_memory_gb = 36;
  total_disk_gb = 1000;
}

-- A server that takes everything, and one that is down.
abbrev pub up : Web ℕ
up = record { marshal = λ _. some (codes "{}"); is_url = λ _. true; post = λ _. some 202 }

abbrev pub down : Web ℕ
down = record { marshal = λ _. some (codes "{}"); is_url = λ _. true; post = λ _. none }

abbrev pub self : Self
self = record { getpid = pos 42; current_pid_namespace = codes "pid:[1]" }

abbrev pub started : Service ℕ
started = new_service laptop (some uploader)

abbrev pub idle_summary : Summary ℕ
idle_summary = record {
  pid = pos 42;
  pid_namespace = codes "pid:[1]";
  running = true;
  poll_count = 1;
  tracked_process_count = 1;
  hardware = laptop;
  tracked_domain_count = 1;
  tracked_connection_count = 1;
  top_process = empty_process;
  top_processes = [];
  top_domains = [];
  top_connections = [];
}
