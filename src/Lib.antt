-- ===== src/Lib.antt =====
-- A verification library for myrun, the OCI container runtime under mvp/.
--
-- The program. `myrun run` (mvp/cmd/myrun/main.go) reads flags into a `Config`, folds an OCI
-- specification into it (mvp/internal/ocispec, `applySpec` of mvp/internal/runtime/runtime_linux.go),
-- and starts itself again as `myrun child` in new namespaces. The parent limits the child
-- (mvp/internal/cgroups) and connects it to a bridge (mvp/internal/network); the child waits for that,
-- changes its root (mvp/internal/pivot), installs a system call filter (mvp/internal/seccomp) and
-- executes the user's command. A user who is not root gets a user namespace (mvp/internal/userns), and
-- slirp4netns in place of the bridge (mvp/internal/slirp). Images are named by references, pulled from
-- a registry into a store, and consist of layers (mvp/internal/image), which an overlay mount
-- (mvp/internal/overlay) stacks into the child's root. `myrun checkpoint` and `myrun restore` start
-- criu (mvp/internal/criu).
--
-- The files.
--   Base      lists, options, results, byte strings, decimal numbers and paths. A Go string is the
--             list of its bytes; an int is an integer, and int64 products wrap around (Cli/Memory).
--   Sys       the calls of the program to the kernel, the file system and other programs (Sys/Calls),
--             and actions that make them (Sys/Actions): a function from the calls made so far to a
--             result and the calls after. An `Oracle` answers each call, and may look at all before.
--             Sys/Ledger counts what is held after the calls made: pipe ends, processes, mounts and
--             control groups; a thing counts as given back when that was tried. Sys/Keeping, Sys/Moving
--             and Sys/Steps are the rules of that account. Sys/Making has the rules for which calls an
--             action makes.
--   Cli       mvp/cmd/myrun/main.go: the publish flag, the memory sizes, and the commands and `main`
--             (Cli/Main), over the packages of one platform (Cli/Program).
--   Darwin    the packages as they are built for macOS, the files of mvp/internal that end in
--             _darwin.go.
--   Image     mvp/internal/image: pull.go with the references (Image/Reference), the exchange with the
--             registry (Image/Registry), `extractLayer` (Image/Extract) and `Pull` (Image/Pull); store.go
--             with the store (Image/Store) and the order of layers (Image/Layers).
--   Spec      mvp/internal/ocispec/spec.go: the specification and `Load`.
--   Runtime   mvp/internal/runtime/runtime_linux.go: `Config` and `applySpec` (Runtime/Config, and
--             what wins in Runtime/Precedence), the arguments of the child and `Child`
--             (Runtime/Child), `resolveRootfs` (Runtime/Rootfs) and `Run` (Runtime/Run).
--             Runtime/Sync lets the parent and the child take turns: a step makes the next call of one
--             of the two, where the pipe and the wait do not hold it back.
--   Userns    mvp/internal/userns/userns_linux.go.
--   Cgroups   mvp/internal/cgroups/cgroups_linux.go.
--   Network   mvp/internal/network/bridge_linux.go: names and addresses (Network/Names), the bridge
--             (Network/Bridge), publish rules (Network/Publish), the packet filter they edit
--             (Network/Publish/Table), `Setup` and `Teardown` (Network/Setup).
--   Slirp     mvp/internal/slirp/slirp_linux.go.
--   Criu      mvp/internal/criu/criu_linux.go.
--   Overlay   mvp/internal/overlay/overlay_linux.go.
--   Pivot     mvp/internal/pivot/pivot_linux.go.
--   Seccomp   mvp/internal/seccomp: the builder (Seccomp/Filter), the lists (Seccomp/Profile), the
--             installation (Seccomp/Install) and the kernel's machine (Seccomp/Machine).
--   Tests     concrete kernels, machines and inputs.
--
-- Operations keep the source's names in snake case: `Create` is `create`, `addPublishRules` is
-- `add_publish_rules`. A loop over a slice is a structural recursion, so no fuel is used. An action
-- that fails keeps the calls made before the failure. `on_error` is the clean-up of an early return,
-- `attempt` and `ignoring` are an error that is looked at later or never.
--
-- A wait against a timer is one call whose answer tells what came first, and a goroutine that only
-- waits is a part of it. The body of an HTTP answer and the entries of an archive are read at once, so
-- an entry behind a broken one is not looked at, but the reads and the writes do not alternate.
--
-- Parameters stand for code outside the repository: the oracle, the decoders of JSON, the hashes, the
-- flag package (`Program` of Cli/Program, `Codecs` of Image/Registry), the float64 operations of `Limits`
-- (`FloatOps`), the packet filter (`Firewall`, with what iptables documents of -A and -D, and `Agrees`
-- of Network/Bridge/Standing for -C), the ids of a user (`Answers` of Userns/Rootless) and the kernel's
-- filter machine (`Machine`, with the laws of linux/filter.h for the three instructions used).
--
-- Not modelled: error texts beyond their nesting, file modes, log lines, output to the terminal and the
-- usage text; the file tree that the calls of `extractLayer` leave, so symbolic links are not followed;
-- and the turns of parent and child where the container is rootless and slirp4netns is a third process.
pub mod Base
pub mod Sys
pub mod Overlay
pub mod Pivot
pub mod Cgroups
pub mod Criu
pub mod Userns
pub mod Slirp
pub mod Spec
pub mod Runtime
pub mod Image
pub mod Cli
pub mod Darwin
pub mod Network
pub mod Tests
pub mod Seccomp
