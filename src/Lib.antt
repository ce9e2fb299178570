-- ===== src/Lib.antt =====
-- Bare Kit: worklets, which run JavaScript on a thread of their own, with an ipc to their host.
--
-- The parts and where they are modelled:
--   * Ring (Ring.antt, Ring/): the bounded ring of owned messages of src/queue.c and src/queue.h,
--     `bare_queue__ring_*`; `Ring/Fifo.antt` is the list that it stands for.
--   * Queue (Queue.antt, Queue/): the queue between the worklet's end, on a libuv loop, and the host's
--     end, on any thread (src/queue.c). `Queue/State.antt` has the struct, `Queue/Ops.antt` one function
--     for each `bare_queue_*` function, `Queue/Channel.antt` the abstract channel, and `Queue/Calls.antt`
--     the calls of both ends with the channel's answers. A port is named by its `is_uv`. Over histories of
--     calls, `Queue/Delivery.antt` follows the bytes, `Queue/Blocks.antt` the blocks of memory, and
--     `Queue/Wake.antt` the signals.
--   * Ipc (Ipc.antt, Ipc/): the host's ipc and its poll (src/ipc.c, src/ipc.h), on top of the host end
--     of the queue; `Ipc/Ops.antt` has one function for each `bare_ipc_*` function, and
--     `Ipc/Signal.antt` the life of the signal of src/standalone/ipc.c. `Ipc/Journey.antt` is a
--     history of the calls of a host and its worklet, with the bytes that go from one to the other.
--   * Worklet (Worklet.antt, Worklet/): src/worklet.c. `Worklet/Control.antt` has the lifecycle calls and
--     the handlers of Bare, with src/suspension.c; `Worklet/Native.antt` the functions that JavaScript
--     calls; `Worklet/Create.antt` the creation where memory may run out; `Worklet/Thread.antt` the stages
--     of `bare_worklet__on_thread` with the host's start and destroy; `Worklet/Process.antt` the count of
--     running worklets and the teardown; `Worklet/Platform.antt` the thread that owns the JavaScript
--     platform, from the first worklet to the teardown.
--   * The bundle (Worklet/Bundle.antt, Worklet/Bundle/): the stream `Bare.IPC` of src/worklet.js, on the
--     functions of `Worklet/Native.antt`; `Worklet/Bundle/Events.antt` runs it against the streams library,
--     the queue's signals and the host.
--   * Android (Android.antt, Android/): `Android/Platform.antt` is src/android/platform.c and
--     `Android/Resources.antt` with `Android/Assets.antt`, for the read of one resource, are
--     src/android/resources.c. The Java VM is the parameter of `Android/Jni.antt`, and code that aborts
--     on a failed assert a function of `Android/Act.antt`; `Android/Life.antt` runs the calls that
--     src/worklet.c makes over a worklet's life.
--   * Apple (Apple.antt, Apple/): src/apple/resources.c, with Core Foundation as a parameter, and in
--     `Apple/Signal.antt` the life of the signal of src/apple/ipc.m.
--   * Ios (Ios.antt, Ios/): src/ios/suspension.m, the background tasks of a suspension.
--   * Prelude (Prelude.antt, Prelude/): shared names, tests on numbers, lists, the bits of a mask, and
--     the `int` that a `size_t` is cast to.
--
-- State is passed explicitly. What a function does outside its struct is recorded in a list, newest
-- first: the lock, libuv's asynchronous handle, callbacks and frees in the trace of a `World` for the
-- queue, the platform's signals and the ipc's own lock and frees in the log of a `Host`, the runtime's
-- functions, the suspension and the host's callbacks in the log of a `Shared`. A block of memory is the
-- number that its `malloc` gave it with the bytes copied in. A critical section is one step, so an
-- interleaving of the two ends is a list of calls, and the steps of a worklet's thread, its JavaScript,
-- its host and its host's ipc are relations (`Worklet/Thread/Steps.antt`, `Worklet/Process/Count.antt`,
-- `Worklet/Platform/Steps.antt`), as are those of the calls and handlers of a suspension
-- (`Ios/Tasks.antt`) and those of the two signals (`Ipc/Signal.antt`, `Apple/Signal.antt`).
--
-- Numbers: an index of a ring is below 1024, and the mask is written out as a bit operation. A length
-- is capped to the largest `int` as in the source, and a cast to `int` wraps at 32 bits. The loop that
-- frees a ring runs on fuel 1024, which is more than the 1023 messages that a ring can hold. The events
-- of a poll are the 32 bits of an `int`. A read of an asset runs on fuel its length, as each turn reads a
-- byte at least, the loop that pushes what a worklet can read on fuel 1024, more than the messages of a
-- ring, and the search for an application on fuel one more than the directories above it.
--
-- Outside: libuv, libjs, Bare and the streams library, which are only called; the Java and Objective-C
-- interfaces of Android and Apple; the rest of the bundle src/worklet.js; symbols, and the memory limit
-- of the options. `malloc` in a write is taken to give memory, as the source does not test it. The host
-- is taken to set its callbacks before it starts the worklet.
pub mod Prelude
pub mod Ring
pub mod Queue
pub mod Ipc
pub mod Worklet
pub mod Android
pub mod Apple
pub mod Ios
