-- ===== src/Vfs/Ramfs.antt =====
-- The static files and directories of servers/vfs/src/lib.rs.
use cyanos.Base.{ℕ, Bool, false, ◌||◌, Option, none, some, List, [], ◌∷◌, if◌then◌else◌}
use cyanos.Base.Text.{text, same_bytes}
use Prim.Native.String.{String}

pub record RamEntry : Type 0 where
  pub path : List ℕ
  pub data_ : List ℕ

abbrev ram : String → String → RamEntry
ram path d = record { path = text path; data_ = text d }

unfoldable pub ramfs : List RamEntry
unfolding text
ramfs =
    ram "/dev/null" ""
    ∷ ram "/dev/zero" ""
    ∷ ram "/dev/urandom" ""
    ∷ ram "/dev/random" ""
    ∷ ram "/dev/stdin" ""
    ∷ ram "/dev/stdout" ""
    ∷ ram "/dev/stderr" ""
    ∷ ram "/dev/tty" ""
    ∷ ram "/etc/motd" "Welcome to Cyanos!\nType 'help' for available commands.\n"
    ∷ ram "/etc/passwd" "root:x:0:0:root:/root:/bin/sh\ndaemon:x:1:1:daemon:/:/bin/false\n"
    ∷ ram "/etc/group" "root:x:0:root\ndaemon:x:1:\n"
    ∷ ram "/etc/hostname" "cyanos\n"
    ∷ ram "/etc/hosts" "127.0.0.1\tlocalhost\n::1\t\tlocalhost\n127.0.0.1\tcyanos\n"
    ∷ ram "/etc/resolv.conf" "nameserver 8.8.8.8\nnameserver 8.8.4.4\n"
    ∷ ram "/etc/services" "http\t80/tcp\nhttps\t443/tcp\nssh\t22/tcp\nftp\t21/tcp\n"
    ∷ ram "/etc/protocols" "ip\t0\tIP\ntcp\t6\tTCP\nudp\t17\tUDP\nicmp\t1\tICMP\n"
    ∷ ram "/etc/nsswitch.conf" "hosts: files dns\npasswd: files\ngroup: files\n"
    ∷ ram "/etc/os-release"
        "NAME=\"Cyanos\"\nVERSION=\"1.0\"\nID=cyanos\nPRETTY_NAME=\"Cyanos 1.0\"\n"
    ∷ ram "/proc/version" "Linux version 6.0.0-cyanos (Cyanos Project) (gcc 13.0)\n"
    ∷ ram "/proc/cpuinfo"
        "processor\t: 0\nmodel name\t: Cyanos Virtual CPU\ncpu MHz\t\t: 1000.000\ncache size\t: 4096 KB\nflags\t\t: fpu vme de pse tsc msr pae mce\n"
    ∷ ram "/proc/filesystems" "nodev\ttmpfs\nnodev\tramfs\nnodev\tprocfs\n\text2\n"
    ∷ ram "/proc/mounts" "proc /proc procfs rw 0 0\ntmpfs /tmp tmpfs rw 0 0\n"
    ∷ ram "/proc/net/dev"
        "Inter-|   Receive                                       |  Transmit\nface |bytes packets errs drop fifo frame compressed multicast|bytes packets errs drop fifo colls carrier compressed\nlo:      0       0    0    0    0     0          0         0       0       0    0    0    0     0       0          0\n"
    ∷ ram "/proc/net/if_inet6" ""
    ∷ ram "/proc/net/fib_trie" "Main:\n  +-- 0.0.0.0/0\n"
    ∷ ram "/proc/sys/kernel/hostname" "cyanos\n"
    ∷ ram "/proc/sys/kernel/ostype" "Linux\n"
    ∷ ram "/proc/sys/kernel/osrelease" "6.0.0-cyanos\n"
    ∷ ram "/proc/sys/vm/overcommit_memory" "0\n"
    ∷ []

unfoldable pub ramfs_dirs : List (List ℕ)
unfolding text
ramfs_dirs =
    text "/"
    ∷ text "/etc"
    ∷ text "/dev"
    ∷ text "/proc"
    ∷ text "/bin"
    ∷ text "/tmp"
    ∷ text "/home"
    ∷ text "/root"
    ∷ text "/proc/net"
    ∷ text "/proc/sys"
    ∷ text "/proc/sys/kernel"
    ∷ text "/proc/sys/vm"
    ∷ []

-- The data of the file with a path.
unfoldable pub ram_data : List ℕ → List RamEntry → Option (List ℕ)
ram_data path [] = none
ram_data path (e ∷ es) = if same_bytes path e.path then some e.data_ else ram_data path es

unfoldable pub is_ram_dir : List ℕ → List (List ℕ) → Bool
is_ram_dir path [] = false
is_ram_dir path (d ∷ ds) = same_bytes path d || is_ram_dir path ds
