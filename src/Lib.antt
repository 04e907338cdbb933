-- ===== src/Lib.antt =====
-- EcatV2 master: a ROS 2 node that runs EtherCAT slaves with motor, radio and sensor tasks.
--
-- The parts. `src/soem_wrapper/src/ecat_node.cpp` has two threads. The data cycle receives a frame
-- from each slave, moves each slave's start forward, lets the slave's tasks publish what they read,
-- and sends the images back. The state check finds slaves that are lost or come back.
-- `src/soem_wrapper/src/soem_backend.cpp` is the slave device: its two images, the arguments that
-- are sent byte by byte, and its tasks. `src/soem_wrapper/src/tasks` has a driver for each kind of
-- task, over the readers and writers of `src/soem_wrapper/src/utils/io_utils.cpp`. The values of
-- the configuration are in `src/soem_wrapper/src/utils/config_utils.cpp`, and the settings of the
-- operating system, which keep other threads from the data cycle's CPU, in
-- `src/soem_wrapper/src/utils/sys_utils.cpp`.
--
-- The files. Base: tests, lists, options, chains of options, integers and bits that all parts
-- share. Io: the readers and writers of io_utils.cpp on a buffer with a size (Io/Splice is the
-- description of a write, as a list of bytes laid over the buffer; Io/Room the readers where there
-- is room; Io/Half the half-precision reader). Float: the float arithmetic, a parameter. Task: one
-- module for each driver; Task/Quad is the code that dji_motor.cpp and dd_motor.cpp share, Task/Pwm
-- the three drivers of channels, Task/Pressure is ms5837_30ba.cpp, Task/Class the interface that a
-- slave device sees, which Task/DjiMotor/Instance fills for one class and Sdo/AllTasks/Fitting for
-- all classes in one list; Task/Room is the room that the reads need. Config: config_utils.cpp,
-- with the loading of a file in Config/Yaml. Device: the methods of `SlaveDevice` (Device/Init is
-- `init`), with the proofs in Device/Args, Delivery, Progress, Recovery, Lost, Latency and Safety.
-- Sdo: the configuration of the tasks; Sdo/Motors, Outputs and Sensors are the drivers' `init_sdo`
-- with `load_slave_info` of task_utils.cpp, Sdo/TaskList is `init_task_list`, and Sdo/Arguments
-- describes the arguments without buffers and offsets (Sdo/Emits, Written, Whole and Delivery are
-- the proofs that the code follows it, Sdo/Complete, with its Motors, Classes and Whole, that a
-- complete configuration does not fail, and Complete/Spills that one whose length is too small
-- does). Sdo/AllTasks: the virtual methods of task_defs.hpp on a task of any class, with the
-- initial values in AllTasks/Reset and the static messages in AllTasks/Stale; Sdo/Cleanup: the ROS
-- handles of a task and `cleanup`, with the proofs in Cleanup/Closed, Parts, Classes and Ended.
-- Node: the data cycle, with Node/Start and Node/Phases, the automaton of a slave's phases;
-- Node/Health, the check of one slave, with Health/Sections, the same check cut where other threads
-- can come in between, and Node/Checker, a round of `state_check_callback` over all slaves;
-- Node/Safety, what all buffers need, with Node/Safety/Schedule, the steps of the threads for one
-- slave in any order, Safety/System, those for all slaves, and Safety/Configured, the slaves that
-- `init_task_list` leaves; Node/Setup, `setup_ecat`; Node/Shutdown, the wait of `on_shutdown`;
-- Node/Registry, the registered modules. Sys: sys_utils.cpp, with Sys/Words, what it uses of the
-- C++ library to read and print text, Sys/Threads, `exec_cmd` and `move_threads`, Sys/Irqs,
-- `move_irq`, and Sys/Nic, `setup_nic`. Examples: the theorems at concrete inputs.
--
-- The model. A method takes the state and returns the new one, with what it publishes; `none` is
-- undefined behaviour, above all an access outside a buffer, and in Config/Yaml an exception. Bytes
-- and unsigned integers are natural numbers with their wrap-around written out; a signed integer is
-- an ℤ. A float is its bit pattern where it is only moved, and a value of a parameter where the
-- code computes. Where both threads run, in Node/Safety/Schedule and System, a step is a section of
-- a thread that holds the device's mutex or a call of the check into the EtherCAT stack, and the
-- threads are the orders of these steps. Two sections hold no mutex in the code, the reset at the
-- exit and `recover_state` of a slave that the stack has recovered; each is one step too, which is
-- coarser than the code. The check of a slave as a whole, in Node/Health and Node/Checker, is its
-- sections with nothing in between; Health/Sections shows this. The other modules have each method
-- as one step. Loops are recursions on lists or on the rounds that are left; the liveness theorems
-- name the number of cycles that are enough, and the loop of `setup_ecat` has at most 51 rounds.
-- The digits of a number are made on fuel: ten decimal digits are enough for an int and eight
-- hexadecimal ones for a mask of 32 bits.
--
-- Not modelled: what only calls SOEM, ROS or the operating system: the constructor of the node,
-- what `on_shutdown` does behind its wait, logging, waiting and the making of threads. What the
-- EtherCAT stack answers is a parameter of the state check and of `setup_ecat`, and so are the
-- output of ps, the list of interrupts and the requests to the network device in Sys, the
-- arithmetic of floats, the printing of numbers in the configuration's keys and the reading of the
-- file by yaml-cpp.
pub mod Base
pub mod Io
pub mod Float
pub mod Task
pub mod Config
pub mod Device
pub mod Sdo
pub mod Node
pub mod Sys
pub mod Examples
