-- ===== src/Lib.antt =====
-- shuttle-gate: a rootless WireGuard gateway that sends its peers' traffic through sshuttle.
--
-- The host-side launcher (src/shuttle_gate/host.py) builds a chain of commands: a systemd user
-- service, a wrapper that holds a lock for each UDP socket (claim.py), pasta for the network
-- namespace, and bubblewrap for the sandbox. Inside the sandbox the gateway (runtime.py) sets up
-- WireGuard, the packet filter, the routing policy and sshuttle, and takes them down again. All parts
-- read one validated configuration (config.py). The key pair for SSH is replaced by a journalled
-- transaction (keys.py) that a crash may interrupt. The WireGuard keys stand in generations of the
-- persistent state (state.py), which one symbolic link activates: a change builds a new generation,
-- and a crash leaves the old one or the new one. A launch is tied to one generation and to the
-- digests of its inputs (launch.py).
--
-- Files and code:
--   Base, and its children: lists, texts and Boolean tests that all parts share.
--   Errors: errors.py. An exception is a value of Error, a call that may raise returns a Result.
--   FilePath, Net: pathlib.Path and the ipaddress types, as far as the program uses them.
--   Config: config.py, one function for each validator, in the order of the checks.
--   Claim.Arguments, Claim.Locks: parse_arguments, run_claimed and main of claim.py, and
--     claim_command of host.py. Locks are a table of the paths that any process holds.
--   Durable: programs on durable storage that make one write at a time. A budget says how many
--     writes the machine lives through, so that every prefix of the writes is a possible crash. The
--     write and the fsync after it are one step. Its children prove what programs reach, what a
--     crash leaves, and how many writes they make: Costs for programs that raise nothing, Triple for
--     those that do.
--   SshKey: the SSH transaction of keys.py. Install is _install_transaction_file, Journal
--     _read_ssh_transaction and _new_ssh_transaction, Receipt _ssh_operation_completed,
--     Transaction _finish_ssh_key_transaction, _record_ssh_operation, _remove_ssh_transaction and
--     recover_ssh_key_transaction, Setup ssh_setup_instructions. SHA-256 is a parameter and nothing
--     is assumed of it. A stage or backup path holds a file or nothing, so that removing it does not
--     raise.
--   State: state.py. Operation has the receipts, Cleaning the removal of what earlier calls left,
--     Copy what a change reads, Mutate the change itself, Mutate.Spec the transaction that it
--     stands for. A generation holds the two data directories, whose content is any type, and
--     receipts. Generation names and the sizes of the written files are arguments: the program
--     draws the first at random. Link counts, permissions and the lock are left out. A write may be
--     the last one before a crash, but it raises nothing: the OSErrors of _publish, and what
--     mutate_state does about them, are not modelled.
--   KeyState: the WireGuard keys of keys.py. Phone has the phone configurations, Generate, Rotate and
--     Prune the changes, each of them the argument of one call of State.Mutate, Listing the rows of
--     peer_rows. A link below `peers` counts as a foreign object. base64 and
--     `wg` are parameters. Where a function writes several files of a staged directory, the model
--     writes them at once: nothing reads in between.
--   Launch: launch.py. A manifest has the digests of the inputs. `files` says what is at a path, and
--     `resolve` is pathlib's.
--   Files: the paths and the file tests of files.py. Render: render.py.
--   Runtime: runtime.py. Arguments has the command lines and the packet filter, PeerStatus the
--     reading of `wg show`, Machine the effects, Gateway the status and the clean-up, Start the
--     start-up. Cleanup.Stop lists what is done to the process. Every effect goes into a trace, and
--     a World answers it with a result that may depend on the whole trace, which is any exception
--     for the status file, too. An exit status is a number, also where a signal ended the process.
--     The wait for sshuttle is bounded by a clock, not by a count: its number of polls is a
--     parameter, and the theorems hold for each.
--   NftTproxy: the table of nft_tproxy.py. Precedence and Rearranged are about the sorting,
--     Order about the table. Python's sorted() is an insertion sort by the weight.
--   Host: command lines of host.py. What _command and the mount probes find is a parameter.
--   Tests: concrete runs.
--
-- Not modelled: the lock of state.py, the sockets of nft_tproxy.py, the supervision of the gateway,
-- the launcher's commands that start and stop the service, and the command-line parser, which are
-- input and output for the most part; PyYAML's and pydantic's conversions; text outside ASCII, where
-- the program restricts itself to ASCII.
pub mod Base
pub mod Claim
pub mod Config
pub mod Durable
pub mod Errors
pub mod FilePath
pub mod Files
pub mod Host
pub mod KeyState
pub mod Launch
pub mod Net
pub mod NftTproxy
pub mod Render
pub mod Runtime
pub mod SshKey
pub mod State
pub mod Tests
