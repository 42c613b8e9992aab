-- ===== src/Command/Dispatch/Laws.antt =====
-- Whatever the command line says, the table changes by calls of the container manager alone.
use mini_container.Text.{Text}
use mini_container.Kernel.{Kernel}
