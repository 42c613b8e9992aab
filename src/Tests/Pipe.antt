-- ===== src/Tests/Pipe.antt =====
-- A machine whose state is what is left of one file and what another holds; a read takes one byte.
use mini_container.Prelude.{
  suc, ◌+◌, ◌≡◌, refl, ap, ◌∙◌, ◌++◌, true, [], ◌∷◌, none, some, pos, length, arith,
}
use mini_container.Text.{Text, text}
use mini_container.Kernel.{Kernel, Returned, returned, error}
use mini_container.Filesystem.Roots.{copy_loop, mkdir_p}
use mini_container.Filesystem.Roots.Contents.{Streams, copy_loop-held, copy_loop-copies}
use mini_container.Filesystem.Roots.Parents.{mkdir_p-fuel}
use mini_container.Tests.Machine.{machine}

abbrev first_byte : Text → Text
first_byte [] = []
first_byte (c ∷ s) = c ∷ []

abbrev after_first : Text → Text
after_first [] = []
after_first (c ∷ s) = s

abbrev pipe : Kernel
pipe = record {
  World = Text × Text;
  alloc = λ w. (true, w);
  time = λ w. (pos 0, w);
  usleep = λ n w. w;
  access = λ mode path w. true;
  stat = λ path w. true;
  mkdir = λ path w. (returned tt, w);
  rmdir = λ path w. (returned tt, w);
  mknod = λ path mode major minor w. (returned tt, w);
  open_file = λ mode path w. (returned 3, w);
  read = λ fd size w. (returned (first_byte w.0), (after_first w.0, w.1));
  write = λ fd bytes w. (returned (length bytes), (w.0, w.1 ++ bytes));
  close = λ fd w. w;
  chdir = λ path w. (returned tt, w);
  chroot = λ path w. (returned tt, w);
  mount = λ source target fstype flags w. (returned tt, w);
  umount = λ path w. (returned tt, w);
  read_dir = λ path w. (none, w);
  read_text = λ path w. (none, w);
  write_text = λ path contents w. (true, w);
  kill = λ pid signal w. (returned tt, w);
  waitpid = λ pid nohang w. ((pid, 0), w);
  clone = λ flags command w. (pos 2, w);
  setns = λ fd ns_type w. (returned tt, w);
  execvp = λ command w. (true, w);
  fork = λ w. (pos 2, w);
}

value : Text → Returned Text → Text
value d (returned s) = s
value d (error e) = d

split : (s : Text) → s ≡ first_byte s ++ after_first s
split [] = refl
split (c ∷ s) = refl

at_end : (s : Text) → first_byte s ≡ [] → s ≡ []
at_end [] h = refl
at_end (c ∷ s) h = cc

streams : Streams pipe 3 4
unfolding value
streams = record {
  left = λ w. w.0;
  held = λ w. w.1;
  read_left = λ w bytes e. split w.0 ∙ ap (λ b. b ++ after_first w.0) (ap (value []) e);
  read_end = λ w e. at_end w.0 (ap (value []) e);
  read_held = λ w. refl;
  write_held = λ bytes w e. refl;
  write_left = λ bytes w. refl;
}

abbrev source : Text
source = b'a' ∷ b'b' ∷ b'c' ∷ []

copy_loop-copies_example :
    ((copy_loop pipe 4 3 4 (source, [])).0 ≡ some tt)
    × (streams.held (copy_loop pipe 4 3 4 (source, [])).1
        ≡ streams.held (source, []) ++ streams.left (source, []))
unfolding streams
copy_loop-copies_example =
    copy_loop-copies pipe 3 4 streams (λ w. (first_byte w.0, refl)) (λ bytes w. refl) 4 (source, [])
      (omega arith)

copies : (copy_loop pipe 4 3 4 (source, [])).0 ≡ some tt
unfolding copy_loop
copies = refl

copy_loop-held_example :
    streams.held (copy_loop pipe 4 3 4 (source, [])).1
    ≡ streams.held (source, []) ++ streams.left (source, [])
copy_loop-held_example = copy_loop-held pipe 3 4 streams 4 (source, []) copies

mkdir_p-fuel_example :
    mkdir_p machine (suc (2 + 5)) (text "/var") 9 ≡ mkdir_p machine 6 (text "/var") 9
unfolding text
mkdir_p-fuel_example =
    mkdir_p-fuel machine (λ path w top. λ e. cc e) 2 5 (text "/var") 9 (omega arith)
